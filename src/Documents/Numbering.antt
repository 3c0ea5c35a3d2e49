-- ===== src/Documents/Numbering.antt =====
-- Document numbers: `renderDocNumber` (documents.helpers.ts) and `issueDocNumber`
-- (document-steps.service.ts). Texts are lists of code points.
use Prim.Native.Char.{code}
use Prim.Native.String.{String}
use able_work.Base.{
  ℕ, zero, suc, ◌+◌, ◌-◌, ◌*◌, ◌/◌, ◌%◌, ◌≡◌, ◌↔◌, Bool, true, false, not, ◌&&◌, Option, none, some,
  is_some, List, [], ◌∷◌, ◌++◌, map, length, any, find, count, leb, ltb, if◌then◌else◌, ◌==◌,
  Equality, nat_eq, or_else, arith, Option-cases, inl, inr,
}
use able_work.Documents.Types.{Text, Document, DocumentNumberRule, Store, Env}

-- The code points of a literal.
abbrev pub codes : String → Text
codes String.[] = []
codes (String.◌∷◌ c s) = code c ∷ codes s

abbrev pub text_beq : Text → Text → Bool
text_beq [] [] = true
text_beq (a ∷ s) (b ∷ t) = a == b && text_beq s t
text_beq _ _ = false

pub text_beq_iff : (s t : Text) → (text_beq s t ≡ true) ↔ (s ≡ t)
text_beq_iff [] [] = ground arith
text_beq_iff [] (b ∷ t) = ground arith
text_beq_iff (a ∷ s) [] = ground arith
text_beq_iff (a ∷ s) (b ∷ t) = ground (arith, text_beq_iff s t)

instance abbrev pub text_eq : Equality Text
text_eq = record { same = text_beq; same_iff = text_beq_iff }

-- `String(n)`, with one more digit of fuel than `n` can have.
decimal_from : ℕ → ℕ → Text → Text
decimal_from zero n acc = acc
decimal_from (suc fuel) n acc =
    let rest = decimal_from fuel (n / 10) ((48 + n % 10) ∷ acc) in
    if ltb n 10 then (48 + n) ∷ acc else rest

unfoldable pub decimal : ℕ → Text
unfolding decimal_from
decimal n = decimal_from (suc n) n []

replicate : ℕ → ℕ → Text
replicate zero c = []
replicate (suc n) c = c ∷ replicate n c

-- `t.padStart(width, '0')`
unfoldable pub pad_start : ℕ → Text → Text
unfolding replicate
pad_start width t = replicate (width - length t) b'0' ++ t

-- `t.slice(-2)`
last_two : Text → Text
last_two (a ∷ b ∷ c ∷ t) = last_two (b ∷ c ∷ t)
last_two t = t

-- `t.startsWith(prefix)`, and the rest behind the prefix.
strip_prefix : Text → Text → Option Text
strip_prefix [] t = some t
strip_prefix (a ∷ p) [] = none
strip_prefix (a ∷ p) (b ∷ t) = if a == b then strip_prefix p t else none

unfoldable pub starts_with : Text → Text → Bool
unfolding strip_prefix
starts_with p t = is_some (strip_prefix p t)

-- The patterns `$$`, `$&`, `` $` `` and `$'` of a replacement string.
expand : Text → Text → Text → Text → Text
expand matched before after (c ∷ d ∷ r) =
    let plain = c ∷ expand matched before after (d ∷ r) in
    let rest = expand matched before after r in
    if not (c == b'$')
    then plain
    else if d == b'$'
    then b'$' ∷ rest
    else if d == b'&'
    then matched ++ rest
    else if d == b'`'
    then before ++ rest
    else if d == 39
    then after ++ rest
    else plain
expand matched before after t = t

-- `t.replace(/token/g, replacement)`: `before` is the text that was passed, and `skip` counts the
-- characters of a match that are still to be passed.
replace_from : Text → Text → Text → ℕ → Text → Text
replace_from token replacement before skip [] = []
replace_from token replacement before (suc skip) (c ∷ t) =
    replace_from token replacement (before ++ c ∷ []) skip t
replace_from token replacement before zero (c ∷ t) = elim (strip_prefix token (c ∷ t)) [
  | none ↦ c ∷ replace_from token replacement (before ++ c ∷ []) 0 t
  | some after ↦
      expand token before after replacement
      ++ replace_from token replacement (before ++ c ∷ []) (length token - 1) t
]

replace_all : Text → Text → Text → Text
unfolding replace_from expand strip_prefix
replace_all token replacement t = replace_from token replacement [] 0 t

is_digit : ℕ → Bool
is_digit c = leb b'0' c && leb c b'9'

-- The digits of `:(\d+)` up to the closing brace: the value so far, whether there was a digit, and
-- the characters read.
read_width : ℕ → Bool → ℕ → Text → Option (ℕ × ℕ)
read_width value seen length_read [] = none
read_width value seen length_read (c ∷ t) =
    let rest = read_width (10 * value + (c - b'0')) true (length_read + 1) t in
    if is_digit c then rest else if c == b'}' && seen then some (value, length_read + 1) else none

-- A match of `\{SEQ(?::(\d+))?\}` here: its width, if it has one, and its length.
match_seq : Text → Option (Option ℕ × ℕ)
unfolding strip_prefix read_width is_digit
match_seq t = elim (strip_prefix (codes "{SEQ") t) [
  | none ↦ none
  | some [] ↦ none
  | some (c ∷ r) ↦
      if c == b'}'
      then some (none, 5)
      else if c == b':'
      then elim (read_width 0 false 5 r) [
        | none ↦ none
        | some (width, size) ↦ some (some width, size)
      ]
      else none
]

seq_text : ℕ → Option ℕ → Text
unfolding decimal pad_start
seq_text seq none = decimal seq
seq_text seq (some width) = pad_start width (decimal seq)

replace_seq : ℕ → ℕ → Text → Text
replace_seq seq skip [] = []
replace_seq seq (suc skip) (c ∷ t) = replace_seq seq skip t
replace_seq seq zero (c ∷ t) = elim (match_seq (c ∷ t)) [
  | none ↦ c ∷ replace_seq seq 0 t
  | some (width, size) ↦ seq_text seq width ++ replace_seq seq (size - 1) t
]

unfoldable pub render_doc_number : Text → Env → ℕ → Text → Text → Text
unfolding replace_all replace_seq match_seq seq_text last_two decimal pad_start
render_doc_number pattern_text env seq abbr category_abbr =
    let t1 = replace_all (codes "{YYYY}") (decimal env.year) pattern_text in
    let t2 = replace_all (codes "{YY}") (last_two (decimal env.year)) t1 in
    let t3 = replace_all (codes "{MM}") (pad_start 2 (decimal env.month)) t2 in
    let t4 = replace_all (codes "{CATEGORY}") category_abbr t3 in
    let t5 = replace_all (codes "{ABBR}") abbr t4 in replace_seq seq 0 t5

unfoldable pub default_prefix : Env → Text
unfolding decimal
default_prefix env = codes "DOC-" ++ (decimal env.year ++ codes "-")

-- `count({ where: { companyId, docNumber: { startsWith: prefix } } })`
unfoldable pub count_numbered : ℕ → Text → List Document → ℕ
unfolding starts_with
count_numbered company_id prefix = count (λ d.
    d.company_id == company_id
    && elim d.doc_number [ none ↦ false | some t ↦ starts_with prefix t ])

-- The number that a form without a rule gets.
unfoldable pub default_number : Env → ℕ → Store → Text
unfolding default_prefix count_numbered pad_start
default_number env company_id st =
    default_prefix env
    ++ pad_start 4 (decimal (count_numbered company_id (default_prefix env) st.documents + 1))

form_abbreviation : Store → ℕ → ℕ → Text
form_abbreviation st company_id form_id =
    elim (find (λ f. f.id == form_id && f.company_id == company_id) st.forms) [
      | none ↦ []
      | some form ↦ or_else form.abbreviation []
    ]

category_abbreviation : Store → ℕ → Option ℕ → Text
category_abbreviation st company_id none = []
category_abbreviation st company_id (some category_id) =
    elim (find (λ c. c.id == category_id && c.company_id == company_id) st.categories) [
      | none ↦ []
      | some category ↦ or_else category.abbreviation []
    ]

-- Whether a document of the form was submitted with a number in the current year.
issued_this_year : Env → ℕ → ℕ → List Document → Bool
issued_this_year env company_id form_id = any (λ d.
    d.company_id == company_id
    && d.form_id == form_id
    && is_some d.doc_number
    && elim d.submitted_at [ none ↦ false | some at ↦ leb env.year_start at ])

set_seq : ℕ → (ℕ → ℕ) → Store → Store
set_seq rule_id f st = record st {
  number_rules =
      map (λ r. if r.id == rule_id then record r { current_seq = f r.current_seq } else r)
        st.number_rules;
}

-- The sequence is reset when the year's first number is issued, and then incremented.
next_seq_store : Env → ℕ → ℕ → DocumentNumberRule → Store → Store
unfolding set_seq issued_this_year
next_seq_store env company_id form_id rule st =
    let resets =
      rule.reset_yearly
      && ltb 0 rule.current_seq
      && not (issued_this_year env company_id form_id st.documents) in
    set_seq rule.id suc (if resets then set_seq rule.id (λ _. 0) st else st)

current_seq_of : ℕ → Store → ℕ
current_seq_of rule_id st = elim (find (λ r. r.id == rule_id) st.number_rules) [
  | none ↦ 0
  | some rule ↦ rule.current_seq
]

unfoldable pub issue_doc_number : Env → ℕ → ℕ → Option ℕ → Store → Text × Store
unfolding form_abbreviation category_abbreviation next_seq_store current_seq_of default_number
    render_doc_number
issue_doc_number env company_id form_id category_id st =
    elim (find (λ r. r.company_id == company_id && r.form_id == form_id) st.number_rules) [
      | none ↦ (default_number env company_id st, st)
      | some rule ↦
          let st' = next_seq_store env company_id form_id rule st in
          (
            render_doc_number rule.pattern_text env (current_seq_of rule.id st')
                (form_abbreviation st company_id form_id)
                (category_abbreviation st company_id category_id),
            st',
          )
    ]

-- The issue of a number changes the number rules, not the documents.
pub issue_doc_number-documents :
    (env : Env) (company_id form_id : ℕ) (category_id : Option ℕ) (st : Store)
    → (issue_doc_number env company_id form_id category_id st).1.documents ≡ st.documents
unfolding issue_doc_number next_seq_store set_seq
issue_doc_number-documents env company_id form_id category_id st =
    elim (Option-cases (
      find (λ (r : DocumentNumberRule). r.company_id == company_id && r.form_id == form_id)
        st.number_rules)) [ inl e ↦ ground (arith, e) | inr (rule, e) ↦ ground (arith, e) ]
