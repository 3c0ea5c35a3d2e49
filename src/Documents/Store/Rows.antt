-- ===== src/Documents/Store/Rows.antt =====
-- How a document that was found is found again after a write, and what the write made of it.
use able_work.Base.{
  ℕ, ◌≡◌, refl, sym, ap, subst, ◌∙◌, true, Bool, ◌&&◌, Option, some, List, [], ◌∷◌, map, Memᴰ,
  arith, find-map, map-map, find-mem, ◌==◌, nat_eq, nat_beq_iff, if◌then◌else◌, map-append,
}
use mathlib.Core.Option.{some-injective}
use able_work.Documents.Types.{Step, ApprovalLine, Document, Store, flat_steps, steps_of}
use able_work.Documents.Store.{
  find_document, map_line, map_document, update_document, update_if_id, update_step,
  update_steps_of, set_document,
}

flat_steps-map :
    (f : Step → Step) (ls : List ApprovalLine)
    → flat_steps (map (map_line f) ls) ≡ map f (flat_steps ls)
flat_steps-map f [] = refl
flat_steps-map f (l ∷ ls) = rw (flat_steps-map f ls, map-append) refl

pub steps_of-map_document :
    (f : Step → Step) (d : Document) → steps_of (map_document f d) ≡ map f (steps_of d)
steps_of-map_document f d = flat_steps-map f d.approval_lines

pub steps_of-map_twice :
    (f g : Step → Step) (d : Document)
    → steps_of (map_document f (map_document g d)) ≡ map (λ s. f (g s)) (steps_of d)
steps_of-map_twice f g d =
    steps_of-map_document f (map_document g d)
    ∙ ap (map f) (steps_of-map_document g d)
    ∙ map-map f g (steps_of d)

-- `g` changes neither the id nor the company of a document.
abbrev pub KeepsKey : (Document → Document) → Type 0
KeepsKey g = (d : Document) → ((g d).id ≡ d.id) × ((g d).company_id ≡ d.company_id)

if-true {ℓ} : {A : Type ℓ} (x y : A) {b : Bool} → b ≡ true → (if b then x else y) ≡ x
if-true x y h = rw h

abbrev is_row : ℕ → ℕ → Document → Bool
is_row company_id document_id d = d.id == document_id && d.company_id == company_id

is_row-KeepsKey :
    (company_id document_id : ℕ) (g : Document → Document)
    → KeepsKey g
    → (d : Document) → is_row company_id document_id (g d) ≡ is_row company_id document_id d
is_row-KeepsKey company_id document_id g keeps d = rw ((keeps d).0, (keeps d).1)

-- A document is found once: what holds of it holds of the one that a call has loaded.
pub found_same {ℓ} :
    (P : Document → Type ℓ) {o : Option Document} {d e : Document}
    → o ≡ some d
    → o ≡ some e
    → P d
    → P e
found_same P {d = d} {e = e} f g = subst P (some-injective d e (sym f ∙ g))

module _ (company_id document_id : ℕ) {d : Document} where
  pub find_document-map :
      (g : Document → Document) (ds : List Document)
      → KeepsKey g
      → find_document company_id document_id ds ≡ some d
      → find_document company_id document_id (map g ds) ≡ some (g d)
  unfolding find_document
  find_document-map g ds keeps =
      find-map (is_row company_id document_id) g ds (is_row-KeepsKey company_id document_id g keeps)

  pub find_document-key :
      (ds : List Document)
      → find_document company_id document_id ds ≡ some d
      → Memᴰ d ds × (d.id ≡ document_id) × (d.company_id ≡ company_id)
  unfolding find_document
  find_document-key ds h =
      let (m, e) = find-mem (is_row company_id document_id) ds h in (m, ground arith, ground arith)

  module _ (st : Store) (found : find_document company_id document_id st.documents ≡ some d) where
    pub find_document-update_step :
        (step_id : ℕ) (f : Step → Step)
        → find_document company_id document_id (update_step step_id f st).documents
          ≡ some (map_document (update_if_id step_id f) d)
    unfolding update_step
    find_document-update_step step_id f =
        find_document-map (map_document (update_if_id step_id f)) st.documents (λ x. (refl, refl))
          found

    -- A write to the row with this id, which `f` makes.
    find_document-update_document :
        (f : Document → Document)
        → KeepsKey f
        → find_document company_id document_id (update_document document_id f st.documents)
          ≡ some (f d)
    unfolding update_document
    find_document-update_document f keeps =
        find_document-map (λ x. if x.id == document_id then f x else x) st.documents
          (λ x. ground (arith, keeps x)) found
        ∙ ap some (if-true (f d) d ((nat_beq_iff _ _).1 (find_document-key st.documents found).1))

    pub find_document-set_document :
        (f : Document → Document)
        → KeepsKey f
        → find_document company_id document_id (set_document document_id f st).documents
          ≡ some (f d)
    unfolding set_document
    find_document-set_document = find_document-update_document

    pub find_document-update_steps_of :
        (p : Step → Bool) (f : Step → Step)
        → find_document company_id document_id (update_steps_of document_id p f st).documents
          ≡ some (map_document (λ s. if p s then f s else s) d)
    unfolding update_steps_of
    find_document-update_steps_of p f =
        find_document-update_document (map_document (λ s. if p s then f s else s))
          (λ x. (refl, refl))

    -- The same writes at an id that is the document's by an equation.
    pub find_document-set_document_at :
        (id : ℕ) (f : Document → Document)
        → id ≡ document_id
        → KeepsKey f
        → find_document company_id document_id (set_document id f st).documents ≡ some (f d)
    find_document-set_document_at id f e keeps =
        subst
          (λ i. find_document company_id document_id (set_document i f st).documents ≡ some (f d))
          (sym e) (find_document-set_document f keeps)

    pub find_document-update_steps_of_at :
        (id : ℕ) (p : Step → Bool) (f : Step → Step)
        → id ≡ document_id
        → find_document company_id document_id (update_steps_of id p f st).documents
          ≡ some (map_document (λ s. if p s then f s else s) d)
    find_document-update_steps_of_at id p f e =
        subst
          (λ i.
            find_document company_id document_id (update_steps_of i p f st).documents
            ≡ some (map_document (λ s. if p s then f s else s) d))
          (sym e) (find_document-update_steps_of p f)
