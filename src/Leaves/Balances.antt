-- ===== src/Leaves/Balances.antt =====
-- The rows of the balance table under the writes of leave-accrual.service.ts: what a lookup finds
-- after an update or an insertion.
use able_work.Base.{
  ℕ, true, false, Option, none, some, List, [], ◌∷◌, ◌≡◌, refl, if◌then◌else◌, nat_eq, All,
  Bool-cases, find-map, find-mem, inl, inr, arith,
}
use able_work.Base.Int.{pos, leb_ℤ, ◌≤ℤ◌}
use able_work.Leaves.Types.{LeaveBalance}
use able_work.Leaves.Accrual.{
  is_balance, find_balance, update_balance, new_balance, raised, apply_accrual_target, Accrual,
}

-- A property that the change keeps stays with all rows.
pub All-update_balance :
    (P : LeaveBalance → Type 0) (f : LeaveBalance → LeaveBalance) (e t y : ℕ)
    (bs : List LeaveBalance)
    → ((b : LeaveBalance) → P b → P (f b))
    → All P bs
    → All P (update_balance e t y f bs)
unfolding update_balance
All-update_balance P f e t y [] keeps h = tt
All-update_balance P f e t y (b ∷ bs) keeps h = elim (Bool-cases (is_balance e t y b)) [
  | inl hit ↦ rw hit (keeps b h.0, All-update_balance P f e t y bs keeps h.1)
  | inr miss ↦ rw miss (h.0, All-update_balance P f e t y bs keeps h.1)
]

-- The change of one row, as `update_balance` maps it.
abbrev pub changed : ℕ → ℕ → ℕ → (LeaveBalance → LeaveBalance) → LeaveBalance → LeaveBalance
changed e t y f b = if is_balance e t y b then f b else b

-- A change that keeps the key is seen by every lookup.
pub find-update_balance :
    (f : LeaveBalance → LeaveBalance) (e t y : ℕ) (e' t' y' : ℕ) (bs : List LeaveBalance)
    {b : LeaveBalance}
    → ((i j k : ℕ) (x : LeaveBalance) → is_balance i j k (f x) ≡ is_balance i j k x)
    → find_balance e' t' y' bs ≡ some b
    → find_balance e' t' y' (update_balance e t y f bs) ≡ some (changed e t y f b)
unfolding find_balance update_balance
find-update_balance f e t y e' t' y' bs keeps h =
    find-map (is_balance e' t' y') (changed e t y f) bs
      (λ x. elim (Bool-cases (is_balance e t y x)) [
        | inl hit ↦ rw hit (keeps e' t' y' x)
        | inr miss ↦ rw miss refl
      ])
      h

-- What is found has the key.
pub find_balance-key :
    (e t y : ℕ) (bs : List LeaveBalance) {b : LeaveBalance}
    → find_balance e t y bs ≡ some b
    → is_balance e t y b ≡ true
unfolding find_balance
find_balance-key e t y bs h = (find-mem (is_balance e t y) bs h).1

-- The employee's accrued days have reached an amount.
abbrev pub HasReached : ℕ → ℕ → ℕ → ℕ → List LeaveBalance → Type 0
HasReached e t y amount bs =
    (b : LeaveBalance) × (find_balance e t y bs ≡ some b) × (pos amount ≤ℤ b.accrued_days)

-- The three ways that a target is applied.
pub apply-new :
    (e t y : ℕ) (a : Accrual) (bs : List LeaveBalance)
    → find_balance e t y bs ≡ none
    → apply_accrual_target e t y a bs ≡ (true, new_balance e t y a.target_days a.expires_at ∷ bs)
unfolding apply_accrual_target
apply-new e t y a bs n = rw (apply_accrual_target, n) refl

pub apply-reached :
    (e t y : ℕ) (a : Accrual) (bs : List LeaveBalance) {b : LeaveBalance}
    → find_balance e t y bs ≡ some b
    → leb_ℤ (pos a.target_days) b.accrued_days ≡ true
    → apply_accrual_target e t y a bs ≡ (false, bs)
unfolding apply_accrual_target
apply-reached e t y a bs s h = rw (apply_accrual_target, s, h) refl

pub apply-raised :
    (e t y : ℕ) (a : Accrual) (bs : List LeaveBalance) {b : LeaveBalance}
    → find_balance e t y bs ≡ some b
    → leb_ℤ (pos a.target_days) b.accrued_days ≡ false
    → apply_accrual_target e t y a bs
      ≡ (true, update_balance e t y (raised a.target_days a.expires_at) bs)
unfolding apply_accrual_target
apply-raised e t y a bs s h = rw (apply_accrual_target, s, h) refl

pub raised-key :
    (n : ℕ) (x : Option ℕ) (i j k : ℕ) (b : LeaveBalance)
    → is_balance i j k (raised n x b) ≡ is_balance i j k b
unfolding raised
raised-key n x i j k b = refl

-- Two employees with a row under the same type and year that one lookup finds are the same.
pub is_balance-employee :
    (e e' t y : ℕ) (b : LeaveBalance)
    → is_balance e t y b ≡ true
    → is_balance e' t y b ≡ true
    → e ≡ e'
is_balance-employee e e' t y b h k = ground arith
