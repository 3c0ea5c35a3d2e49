-- ===== src/Documents/Flow/Move.antt =====
-- A change of the steps that keeps ids, roles and orders keeps what the invariants say of these.
use able_work.Base.{
  ℕ, ◌≡◌, sym, ap, ◌∙◌, subst, Bool, true, List, arith, if◌then◌else◌, map, Memᴰ, mem-map, each-map,
}
use mathlib.Core.Path.{subst₂}
use able_work.Documents.Constants.{DocStatus}
use able_work.Documents.Types.{Step, Document, steps_of}
use able_work.Documents.Store.{update_if_id}
use able_work.Documents.Helpers.{is_flow}
use able_work.Documents.Flow.{
  HasUniqueIds, HasUniqueOrders, AtFrontier, PendingFlow, SoundSteps, IsSound,
}

-- `g` changes neither the id, nor the role, nor the order of a step.
abbrev pub KeepsPlace : (Step → Step) → Type 0
KeepsPlace g =
    (s : Step) → ((g s).id ≡ s.id) × ((g s).role ≡ s.role) × ((g s).step_order ≡ s.step_order)

module _ (g : Step → Step) (keeps : KeepsPlace g) (steps : List Step) where
  pub map-HasUniqueIds : HasUniqueIds steps → HasUniqueIds (map g steps)
  map-HasUniqueIds h s t ms mt =
      each-map (λ x. (y : Step) → Memᴰ y (map g steps) → x.id ≡ y.id → x ≡ y) g steps
        (λ a ma.
          each-map (λ y. (g a).id ≡ y.id → g a ≡ y) g steps
            (λ b mb e. ap g (h a b ma mb (sym (keeps a).0 ∙ e ∙ (keeps b).0))))
        s ms t mt

  pub map-HasUniqueOrders : HasUniqueOrders steps → HasUniqueOrders (map g steps)
  map-HasUniqueOrders h s t ms mt =
      each-map
        (λ x.
          (y : Step)
          → Memᴰ y (map g steps)
          → is_flow x.role ≡ true
          → is_flow y.role ≡ true
          → x.step_order ≡ y.step_order
          → x.id ≡ y.id)
        g steps
        (λ a ma.
          each-map
            (λ y.
              is_flow (g a).role ≡ true
              → is_flow y.role ≡ true
              → (g a).step_order ≡ y.step_order
              → (g a).id ≡ y.id)
            g steps
            (λ b mb fa fb e.
              (keeps a).0
              ∙ h a b ma mb (sym (ap is_flow (keeps a).1) ∙ fa) (sym (ap is_flow (keeps b).1) ∙ fb)
                  (sym (keeps a).2 ∙ e ∙ (keeps b).2)
              ∙ sym (keeps b).0))
        s ms t mt

  -- The flow moves to the order `k'` when every changed step lies right for it, and a flow step has
  -- that order.
  pub map-PendingFlow :
      {k : ℕ} (k' : ℕ) (c : Step)
      → PendingFlow k steps
      → ((s : Step) → Memᴰ s steps → AtFrontier k' (g s))
      → Memᴰ c steps
      → is_flow c.role ≡ true
      → c.step_order ≡ k'
      → PendingFlow k' (map g steps)
  map-PendingFlow k' c h lies m f e = record {
    unique_ids = map-HasUniqueIds h.unique_ids;
    unique_orders = map-HasUniqueOrders h.unique_orders;
    frontier = each-map (AtFrontier k') g steps lies;
    current = (g c, mem-map g steps m, ap is_flow (keeps c).1 ∙ f, (keeps c).2 ∙ e);
  }

-- Writes to one step, one after another.
pub update_if_id-KeepsPlace :
    (step_id : ℕ) (f : Step → Step) → KeepsPlace f → KeepsPlace (update_if_id step_id f)
update_if_id-KeepsPlace step_id f keeps s = ground (arith, keeps s)

pub if-KeepsPlace :
    (p : Step → Bool) (f : Step → Step) → KeepsPlace f → KeepsPlace (λ s. if p s then f s else s)
if-KeepsPlace p f keeps s = ground (arith, keeps s)

pub after-KeepsPlace : (f g : Step → Step) → KeepsPlace f → KeepsPlace g → KeepsPlace (λ s. f (g s))
after-KeepsPlace f g kf kg s =
    ((kf (g s)).0 ∙ (kg s).0, (kf (g s)).1 ∙ (kg s).1, (kf (g s)).2 ∙ (kg s).2)

-- A document is sound if its status and its steps are those of a sound one.
pub IsSound-of :
    (d : Document) (status : DocStatus) (steps : List Step)
    → d.status ≡ status
    → steps_of d ≡ steps
    → SoundSteps status steps
    → IsSound d
IsSound-of d status steps p e h = subst₂ SoundSteps (sym p) (sym e) h

-- What holds of some steps holds of a document's when they are these.
pub with_steps :
    (d : Document) (steps : List Step) (P : List Step → Type 0)
    → steps_of d ≡ steps
    → P steps
    → P (steps_of d)
with_steps d steps P e h = subst P (sym e) h

-- A pending document whose flow is at some order is sound.
pub PendingFlow-IsSound :
    (d : Document) {k : ℕ} → d.status ≡ DocStatus.pending → PendingFlow k (steps_of d) → IsSound d
PendingFlow-IsSound d {k} p h = subst (λ q. SoundSteps q (steps_of d)) (sym p) (k, h)

-- The flow of a sound document that is pending.
pub pending_flow :
    (d : Document) → d.status ≡ DocStatus.pending → IsSound d → (k : ℕ) × PendingFlow k (steps_of d)
pending_flow d p = subst (λ q. SoundSteps q (steps_of d)) p
