-- ===== src/Documents/Flow/Aside.antt =====
-- Steps that change without a move of the flow (`view`, `receive`, `bounce`).
use able_work.Base.{ℕ, ◌≡◌, ◌≢◌, true, ◌⊎◌, List, map, Memᴰ, arith, each-map}
use able_work.Documents.Constants.{DocStatus, StepStatus}
use able_work.Documents.Types.{Step}
use able_work.Documents.Helpers.{is_flow, is_receiver}
use able_work.Documents.Flow.{HasUniqueIds, AtFrontier, SoundSteps, IsSettled, IsStopped}
use able_work.Documents.Flow.Move.{KeepsPlace, map-HasUniqueIds, map-PendingFlow}

-- The step ids of a document in any status are unique.
pub unique_ids_of :
    (status : DocStatus) (steps : List Step) → SoundSteps status steps → HasUniqueIds steps
unique_ids_of DocStatus.draft steps h = h
unique_ids_of DocStatus.pending steps h = h.1.unique_ids
unique_ids_of DocStatus.approved steps h = h.0
unique_ids_of DocStatus.rejected steps h = h.0
unique_ids_of DocStatus.recalled steps h = h
unique_ids_of DocStatus.cancelled steps h = h

-- A flow step keeps its status, and a receiver's keeps it or is done.
abbrev pub LeavesFlow : (Step → Step) → Step → Type 0
LeavesFlow g s =
    (is_flow s.role ≡ true → (g s).status ≡ s.status)
    × (is_receiver s.role ≡ true
        → ((g s).status ≡ s.status)
          ⊎ (((g s).status ≢ StepStatus.waiting) × ((g s).status ≢ StepStatus.pending)))

module _ (g : Step → Step) (keeps : KeepsPlace g) (steps : List Step)
    (leaves : (s : Step) → Memᴰ s steps → LeavesFlow g s) where
  AtFrontier-aside : (k : ℕ) (s : Step) → Memᴰ s steps → AtFrontier k s → AtFrontier k (g s)
  AtFrontier-aside k s m h f = ground (arith, keeps s, leaves s m, h)

  IsSettled-aside : (s : Step) → Memᴰ s steps → IsSettled s → IsSettled (g s)
  IsSettled-aside s m h = ground (arith, keeps s, leaves s m, h)

  IsStopped-aside : (s : Step) → Memᴰ s steps → IsStopped s → IsStopped (g s)
  IsStopped-aside s m h f = ground (arith, keeps s, leaves s m, h)

  pub SoundSteps-aside :
      (status : DocStatus) → SoundSteps status steps → SoundSteps status (map g steps)
  SoundSteps-aside DocStatus.draft h = map-HasUniqueIds g keeps steps h
  SoundSteps-aside DocStatus.recalled h = map-HasUniqueIds g keeps steps h
  SoundSteps-aside DocStatus.cancelled h = map-HasUniqueIds g keeps steps h
  SoundSteps-aside DocStatus.pending (k, h) =
      let (c, m, f, e) = h.current in
      (
        k,
        map-PendingFlow g keeps steps k c h (λ s ms. AtFrontier-aside k s ms (h.frontier s ms)) m f
            e,
      )
  SoundSteps-aside DocStatus.approved (u, h) = (
    map-HasUniqueIds g keeps steps u,
    each-map IsSettled g steps (λ s m. IsSettled-aside s m (h s m)),
  )
  SoundSteps-aside DocStatus.rejected (u, h) = (
    map-HasUniqueIds g keeps steps u,
    each-map IsStopped g steps (λ s m. IsStopped-aside s m (h s m)),
  )
