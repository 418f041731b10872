-- ===== src/Daemon/Tests/Annotations.antt =====
-- The annotation store on concrete updates.
use nvnmos.Common.{
  nat_Eq, text_Eq, text_eq, codes, ◌≤◌, ◌≡◌, ◌⊎◌, true, false, none, some, [], arith,
}
use nvnmos.HashMap
use nvnmos.HashMap.{HashMap}
use nvnmos.Wrapper.{resource_type_Eq, ResourceType, Update, Annotation, AnnotationUpdate}
use nvnmos.Daemon.AnnotationStore.{key_Eq, blank_annotation, update_key, apply, Inner}
use nvnmos.Daemon.AnnotationStore.Stored.{apply-IsStore, IsStore}
use nvnmos.Daemon.AnnotationStore.Views.{view, apply-view}
use nvnmos.Daemon.Tests.Run.{seed}

abbrev pub label_only : Annotation
label_only = record blank_annotation { label_update = Update.set; label = some (codes "Studio") }

abbrev labelled : Annotation
labelled = record label_only { label_update = Update.unchanged }

abbrev pub update : AnnotationUpdate
update = record { resource_type = ResourceType.node; name = none; annotation = label_only }

abbrev pub nothing_stored : Inner
nothing_stored = record { entries = HashMap.empty; limit = 2 }

empty-IsStore : IsStore nothing_stored
unfolding HashMap.empty HashMap.count HashMap.get
empty-IsStore = record { within = omega arith; form = λ k a h. absurd (ground arith) }

apply-IsStore_example : IsStore (apply nothing_stored seed update).0
apply-IsStore_example = apply-IsStore nothing_stored seed update empty-IsStore

apply-view_example :
    (((apply nothing_stored seed update).1 ≡ true)
      × (view (HashMap.get (apply nothing_stored seed update).0.entries (update_key seed update))
          ≡ record { label = some (codes "Studio"); description = none; tags = [] }))
    ⊎ ((apply nothing_stored seed update ≡ (nothing_stored, false))
        × (HashMap.get nothing_stored.entries (update_key seed update) ≡ none)
        × (nothing_stored.limit ≤ HashMap.count (λ _. true) nothing_stored.entries))
unfolding HashMap.empty HashMap.get text_eq
apply-view_example = apply-view nothing_stored seed update (update_key seed update) empty-IsStore
