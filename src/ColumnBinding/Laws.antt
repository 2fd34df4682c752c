-- ===== src/ColumnBinding/Laws.antt =====
-- The count of the bound columns is right, and a call changes its own column only.
use psqlodbc_new.Prelude.{
  ℕ, zero, suc, ◌+◌, ◌-◌, ◌≤◌, ◌<◌, ◌≡◌, refl, sym, ap, ◌∙◌, ◌⊎◌, inl, inr, Bool, true, false, ◌||◌,
  Option, none, some, List, [], ◌∷◌, arith, ltb, ◌==◌, if◌then◌else◌, Bool-cases, length, get_or,
  set,
}
use psqlodbc_new.Prelude.Int.{ℤ, pos}
use psqlodbc_new.Environment.{sql_success, sql_error}
use psqlodbc_new.ColumnBinding.{
  ColumnBinding, cleared, Bindings, wanted, recount, column_binding_bind, all_cleared,
  column_binding_unbind_all,
}

abbrev one_if : Bool → ℕ
one_if true = 1
one_if false = 0

-- The slots that are bound.
abbrev pub bound : List ColumnBinding → ℕ
bound [] = 0
bound (slot ∷ slots) = one_if slot.is_bound + bound slots

-- The array has its 256 slots, and the count is of those that are bound.
pub record HasCount (b : Bindings) : Type 0 where
  pub counts : b.bound_count ≡ pos (bound b.bindings)
  pub slots : length b.bindings ≡ 256

bound-set :
    (slots : List ColumnBinding) (i : ℕ) (slot : ColumnBinding)
    → i < length slots
    → bound (set slots i slot) + one_if (get_or slots i cleared).is_bound
      ≡ bound slots + one_if slot.is_bound
bound-set [] i slot h = absurd (omega arith)
bound-set (s ∷ slots) zero slot h = omega arith
bound-set (s ∷ slots) (suc i) slot h = omega (arith, bound-set slots i slot (omega arith))

length-set :
    (slots : List ColumnBinding) (i : ℕ) (slot : ColumnBinding)
    → length (set slots i slot) ≡ length slots
length-set [] i slot = refl
length-set (s ∷ slots) zero slot = refl
length-set (s ∷ slots) (suc i) slot = ap suc (length-set slots i slot)

get-set :
    (slots : List ColumnBinding) (i j : ℕ) (slot : ColumnBinding)
    → i < length slots
    → get_or (set slots i slot) j cleared ≡ (if i == j then slot else get_or slots j cleared)
get-set [] i j slot h = absurd (omega arith)
get-set (s ∷ slots) zero zero slot h = refl
get-set (s ∷ slots) zero (suc j) slot h = let e : (0 == suc j) ≡ false = ground arith in rw e refl
get-set (s ∷ slots) (suc i) zero slot h = let e : (suc i == 0) ≡ false = ground arith in rw e refl
get-set (s ∷ slots) (suc i) (suc j) slot h =
    let e : (suc i == suc j) ≡ (i == j) = ground arith in
    rw e (get-set slots i j slot (omega arith))

recount_lem :
    (old new : Bool) (before after : ℕ)
    → after + one_if old ≡ before + one_if new
    → recount old new (pos before) ≡ pos after
recount_lem true true before after h = ap pos (omega arith)
recount_lem false false before after h = ap pos (omega arith)
recount_lem false true before after h = ap pos (omega arith)
recount_lem true false zero after h = absurd (omega arith)
recount_lem true false (suc before) after h = ap pos (omega arith)

bound-all_cleared : (n : ℕ) → (bound (all_cleared n) ≡ 0) × (length (all_cleared n) ≡ n)
bound-all_cleared zero = (refl, refl)
bound-all_cleared (suc n) = (omega (arith, (bound-all_cleared n).0), ap suc (bound-all_cleared n).1)

-- What a column shows.
abbrev pub column : Bindings → ℕ → ColumnBinding
column b number = get_or b.bindings (number - 1) cleared

get-all_cleared : (n i : ℕ) → get_or (all_cleared n) i cleared ≡ cleared
get-all_cleared zero i = refl
get-all_cleared (suc n) zero = refl
get-all_cleared (suc n) (suc i) = get-all_cleared n i

-- What a column shows after a call with or without a buffer.
abbrev pub Shows : ℕ → ℤ → Option ℕ → ℤ → Option ℕ → ColumnBinding → Type 0
Shows number target_type none buffer_length indicator slot =
    (slot.is_bound ≡ false) × (slot.target_buffer ≡ none)
Shows number target_type (some buffer) buffer_length indicator slot = slot ≡ record {
  column_number = number;
  target_type = target_type;
  target_buffer = some buffer;
  buffer_length = buffer_length;
  indicator_or_length = indicator;
  is_bound = true;
}

wanted-Shows :
    (number : ℕ) (target_type : ℤ) (target_buffer : Option ℕ) (buffer_length : ℤ)
    (indicator : Option ℕ)
    → Shows number target_type target_buffer buffer_length indicator
        (wanted number target_type target_buffer buffer_length indicator)
wanted-Shows number target_type none buffer_length indicator = (refl, refl)
wanted-Shows number target_type (some buffer) buffer_length indicator = refl

-- On an array of 256 slots whose count is right: a call for a column from 1 to 256 succeeds, leaves
-- that column bound with what the call gives, or unbound where it gives no buffer, and leaves every other column
-- alone; a call for a column out of this range fails and changes nothing; and the count is right
-- afterwards. After all columns are unbound no column is bound and the count is 0.
pub bind_lem :
    (b : Bindings) (number : ℕ) (target_type : ℤ) (target_buffer : Option ℕ) (buffer_length : ℤ)
    (indicator : Option ℕ) (other : ℕ)
    → HasCount b
    → 1 ≤ other
    → (let (result, after) =
          column_binding_bind b number target_type target_buffer buffer_length indicator in
        HasCount after
        × HasCount (column_binding_unbind_all b)
        × ((column_binding_unbind_all b).bound_count ≡ pos 0)
        × ((column (column_binding_unbind_all b) other).is_bound ≡ false)
        × (((1 ≤ number)
              × (number ≤ 256)
              × (result ≡ sql_success)
              × Shows number target_type target_buffer buffer_length indicator (column after number)
              × (column after other
                  ≡ (if number == other then column after number else column b other)))
            ⊎ (((number < 1) ⊎ (256 < number)) × (result ≡ sql_error) × (after ≡ b))))
unfolding column_binding_bind column_binding_unbind_all
bind_lem b number target_type target_buffer buffer_length indicator other h k =
    elim (Bool-cases (ltb number 1 || ltb 256 number)) [
      | inl out ↦ rw out (h, unbound, refl, none_bound, inr (ground arith, refl, refl))
      | inr inside ↦
          let from : 1 ≤ number = ground arith in
          let to : number ≤ 256 = ground arith in
          let l : number - 1 < length b.bindings = omega (arith, h.slots) in
          let same : (number == number) ≡ true = ground arith in
          let here : get_or (set b.bindings (number - 1) slot) (number - 1) cleared ≡ slot =
            stored number l from from ∙ rw same refl in
          rw inside (
            record {
              counts = recounted l;
              slots = length-set b.bindings (number - 1) slot ∙ h.slots;
            },
            unbound,
            refl,
            none_bound,
            inl (
              from,
              to,
              refl,
              rw here (wanted-Shows number target_type target_buffer buffer_length indicator),
              rw here (stored other l from k),
            ),
          )
    ]
  where
    slot : ColumnBinding
    slot = wanted number target_type target_buffer buffer_length indicator

    unbound : HasCount (column_binding_unbind_all b)
    unbound = record {
      counts = ap pos (sym (bound-all_cleared 256).0);
      slots = (bound-all_cleared 256).1;
    }

    recounted :
        number - 1 < length b.bindings
        → recount (get_or b.bindings (number - 1) cleared).is_bound slot.is_bound b.bound_count
          ≡ pos (bound (set b.bindings (number - 1) slot))
    recounted l = rw h.counts (
        recount_lem (get_or b.bindings (number - 1) cleared).is_bound slot.is_bound
          (bound b.bindings) (bound (set b.bindings (number - 1) slot))
          (bound-set b.bindings (number - 1) slot l))

    none_bound : (column (column_binding_unbind_all b) other).is_bound ≡ false
    none_bound = ap (λ s. s.is_bound) (get-all_cleared 256 (other - 1))

    stored :
        (at : ℕ)
        → number - 1 < length b.bindings
        → 1 ≤ number
        → 1 ≤ at
        → get_or (set b.bindings (number - 1) slot) (at - 1) cleared
          ≡ (if number == at then slot else column b at)
    stored at l from k =
        let same : (number == at) ≡ (number - 1 == at - 1) = ground arith in
        rw same (get-set b.bindings (number - 1) (at - 1) slot l)
