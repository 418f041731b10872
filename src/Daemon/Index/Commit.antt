-- ===== src/Daemon/Index/Commit.antt =====
-- Recording a resource and removing one keep the index in step.
use nvnmos.Common.{
  ==_iff, ==_refl, nat_Eq, text_Eq, Text, codes, decimal_injective, append_cancel, ℕ, ◌+◌, ◌^◌, ◌<◌,
  ◌≡◌, true, none, some, arith,
}
use nvnmos.HashMap
use nvnmos.HashMap.{get-remove, get-insert, HashMap}
use nvnmos.Daemon.Types.{side_Eq, name_key_Eq, seed_key_Eq, Side, ResourceEntry, SessionEntry}
use nvnmos.Daemon.State.{resource_handle, State}
use nvnmos.Daemon.Resources.{name_key, record_resource, forget_resource}
use nvnmos.Daemon.Index.{key_of, IsIndexed}

resource_handle_injective : (n m : ℕ) → resource_handle n ≡ resource_handle m → n ≡ m
unfolding resource_handle
resource_handle_injective n m e = decimal_injective n m (append_cancel (codes "res-") _ _ e)

pub record_resource-IsIndexed :
    (s : State) (side : Side) (name seed handle : Text) (e : SessionEntry)
    → IsIndexed s
    → HashMap.get s.sessions handle ≡ some e
    → e.node_seed ≡ seed
    → s.next_resource_id + 1 < 2 ^ 64
    → IsIndexed (record_resource s side name seed handle e)
unfolding record_resource
record_resource-IsIndexed s side name seed handle e x known on_seed bound = record {
  named = λ k i. simp get-insert (
      ground (
        arith,
        x.named k i,
        ==_iff (name_key seed side name) k,
        ==_refl (name_key seed side name),
        ==_refl id,
        unused,
        ==_iff id i,
      ));
  owner = λ i r. simp get-insert (
      ground (
        arith,
        x.owner i r,
        ==_iff id i,
        ==_refl handle,
        ==_refl id,
        known,
        ==_iff handle r.session_handle,
        ==_iff e.node_seed seed,
        get-insert e.resources id i tt,
      ));
  owned = λ h e' i. simp get-insert (
      ground (
        arith,
        x.owned h e' i,
        x.owned handle e i,
        ==_iff id i,
        ==_refl handle,
        ==_refl id,
        known,
        ==_iff handle h,
        get-insert e.resources id i tt,
        unused,
      ));
  fresh = λ n. simp get-insert (
      ground (
        arith,
        x.fresh n,
        ==_iff id (resource_handle n),
        resource_handle_injective s.next_resource_id n,
      ));
}
  where
    id : Text
    id = resource_handle s.next_resource_id

    unused : HashMap.get s.resources id ≡ none
    unused = x.fresh s.next_resource_id (omega arith)

pub forget_resource-IsIndexed :
    (s : State) (handle : Text) (e : SessionEntry) (id : Text) (r : ResourceEntry)
    → IsIndexed s
    → HashMap.get s.sessions handle ≡ some e
    → HashMap.contains_key e.resources id ≡ true
    → HashMap.get s.resources id ≡ some r
    → IsIndexed (forget_resource s handle e id r)
unfolding forget_resource
forget_resource-IsIndexed s handle e id r x known member there = record {
  named = λ k i. simp get-remove (ground (arith, x.named k i, ==_iff (key_of r) k, ==_iff id i));
  owner = λ i r'.
      simp (get-remove, get-insert)
        (ground (
          arith,
          x.owner i r',
          ==_iff id i,
          known,
          ==_iff handle r'.session_handle,
          get-remove e.resources id i,
        ));
  owned = λ h e' i.
      simp (get-remove, get-insert)
        (ground (
          arith,
          x.owned h e' i,
          x.owned handle e i,
          x.owned handle e id,
          x.owned h e' id,
          ==_iff id i,
          known,
          ==_iff handle h,
          get-remove e.resources id i,
          ==_iff r.session_handle handle,
          ==_iff r.session_handle h,
        ));
  fresh = λ n. simp get-remove (ground (arith, x.fresh n));
}
