-- ===== src/Documents/Flow/Distinct.antt =====
-- The uniqueness of ids and orders from a comparison of each step with those behind it.
use able_work.Base.{◌≡◌, ◌≢◌, sym, ap, ◌∙◌, subst, true, List, [], ◌∷◌, Memᴰ, All, All-get}
use able_work.Documents.Types.{Step}
use able_work.Documents.Helpers.{is_flow}
use able_work.Documents.Flow.{HasUniqueIds, HasUniqueOrders}

abbrev pub Differ : Step → Step → Type 0
Differ s t =
    (s.id ≢ t.id) × (is_flow s.role ≡ true → is_flow t.role ≡ true → s.step_order ≢ t.step_order)

abbrev pub AllDiffer : List Step → Type 0
AllDiffer [] = Unit
AllDiffer (s ∷ r) = All (Differ s) r × AllDiffer r

pub AllDiffer-HasUniqueIds : (steps : List Step) → AllDiffer steps → HasUniqueIds steps
AllDiffer-HasUniqueIds [] h s t ms mt e = elim ms [ ]
AllDiffer-HasUniqueIds (x ∷ xs) h s t (Memᴰ.head a) (Memᴰ.head b) e = a ∙ sym b
AllDiffer-HasUniqueIds (x ∷ xs) h s t (Memᴰ.head a) (Memᴰ.tail b) e =
    absurd ((All-get (Differ x) xs h.0 b).0 (sym (ap (λ (y : Step). y.id) a) ∙ e))
AllDiffer-HasUniqueIds (x ∷ xs) h s t (Memᴰ.tail a) (Memᴰ.head b) e =
    absurd ((All-get (Differ x) xs h.0 a).0 (sym (e ∙ ap (λ (y : Step). y.id) b)))
AllDiffer-HasUniqueIds (x ∷ xs) h s t (Memᴰ.tail a) (Memᴰ.tail b) e =
    AllDiffer-HasUniqueIds xs h.1 s t a b e

pub AllDiffer-HasUniqueOrders : (steps : List Step) → AllDiffer steps → HasUniqueOrders steps
AllDiffer-HasUniqueOrders [] h s t ms mt fs ft e = elim ms [ ]
AllDiffer-HasUniqueOrders (x ∷ xs) h s t (Memᴰ.head a) (Memᴰ.head b) fs ft e =
    ap (λ (y : Step). y.id) (a ∙ sym b)
AllDiffer-HasUniqueOrders (x ∷ xs) h s t (Memᴰ.head a) (Memᴰ.tail b) fs ft e = absurd (
    (All-get (Differ x) xs h.0 b).1 (subst (λ (y : Step). is_flow y.role ≡ true) a fs) ft
      (sym (ap (λ (y : Step). y.step_order) a) ∙ e))
AllDiffer-HasUniqueOrders (x ∷ xs) h s t (Memᴰ.tail a) (Memᴰ.head b) fs ft e = absurd (
    (All-get (Differ x) xs h.0 a).1 (subst (λ (y : Step). is_flow y.role ≡ true) b ft) fs
      (sym (e ∙ ap (λ (y : Step). y.step_order) b)))
AllDiffer-HasUniqueOrders (x ∷ xs) h s t (Memᴰ.tail a) (Memᴰ.tail b) fs ft e =
    AllDiffer-HasUniqueOrders xs h.1 s t a b fs ft e
