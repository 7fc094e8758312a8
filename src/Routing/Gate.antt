-- ===== src/Routing/Gate.antt =====
-- routing.py: who is let into the pool, from the cached readings.
use buddy2api.Prelude.{
  ℕ, zero, suc, true≢false, ◌*◌, ◌≤◌, ◌≡◌, refl, ap, sym, ◌∙◌, Bool, true, false, not, ◌&&◌, ◌||◌,
  Option, none, some, List, [], ◌∷◌, String, str_eq, ltb, ◌↔◌, ◌⊎◌, arith, if◌then◌else◌,
}
use buddy2api.Prelude.Int.{ℤ, pos, negsuc, leb_ℤ, ◌≤ℤ◌}
use buddy2api.Prelude.Order.{Ratio, mul_le}
use buddy2api.Prelude.Member.{In, keep, In-keep, In-keep_of, In-sort_on, In-sort_on_of}
use buddy2api.Prelude.Texts.{str_in}
use buddy2api.Routing.{
  first_number, Snapshot, Account, Cache, resource_snapshot, is_false, snapshot_remaining,
  remaining_quota, positive, or_else, peak_cell, peak_quota, is_spent, quota_exhausted, below,
  low_reading, quota_low, account_available, sort_key, key_order, order_accounts,
  get_active_accounts, channel_pool,
}

-- A reading that proves that the quota is gone: the latest one succeeded on a supported channel, and its first
-- number is not positive.
abbrev pub IsProof : Snapshot → Type 0
IsProof s =
    (s.unsupported ≡ false)
    × (is_false s.ok ≡ false)
    × (n : ℤ) × (first_number (s.remaining ∷ s.available_total ∷ s.total_dosage ∷ []) ≡ some n)
    × (n ≤ℤ pos 0)

spent : (n : ℤ) → leb_ℤ n (pos 0) ≡ true → n ≤ℤ pos 0
spent n h = ground arith

spent_of : (n : ℤ) → n ≤ℤ pos 0 → leb_ℤ n (pos 0) ≡ true
spent_of n h = ground arith

is_spent-some : (o : Option ℤ) → is_spent o ≡ true → (n : ℤ) × (o ≡ some n) × (n ≤ℤ pos 0)
is_spent-some none h = ground arith
is_spent-some (some n) h = (n, refl, spent n h)

open_reading :
    (u f : Bool) (o : Option ℤ)
    → is_spent (if u || f then none else o) ≡ true
    → (u ≡ false) × (f ≡ false) × (is_spent o ≡ true)
open_reading true f o h = ground arith
open_reading false true o h = ground arith
open_reading false false o h = (refl, refl, h)

IsProof-of :
    (s : Option Snapshot)
    → is_spent (snapshot_remaining s) ≡ true
    → (t : Snapshot) × (s ≡ some t) × IsProof t
IsProof-of none h = ground arith
IsProof-of (some t) h =
    let (u, f, o) =
      open_reading t.unsupported (is_false t.ok)
        (first_number (t.remaining ∷ t.available_total ∷ t.total_dosage ∷ [])) h in
    let (n, e, l) = is_spent-some _ o in (t, refl, (u, f, n, e, l))

spent_reading : (t : Snapshot) → IsProof t → is_spent (snapshot_remaining (some t)) ≡ true
spent_reading t (u, f, n, e, l) = simp (u, f, e) (spent_of n l)

-- Out of quota means a proof of it: nothing cached, an unsupported channel, a failed billing call or an unreadable
-- reading never is, and a proof always is.
pub quota_exhausted-IsProof :
    (cache : Cache) (account : Account)
    → (quota_exhausted cache account ≡ true)
      ↔ ((t : Snapshot) × (resource_snapshot cache account ≡ some t) × IsProof t)
unfolding quota_exhausted
quota_exhausted-IsProof cache account = (
  IsProof-of (resource_snapshot cache account),
  λ (t, e, p). ap (λ s. is_spent (snapshot_remaining s)) e ∙ spent_reading t p,
)

admits : (b c : Bool) → (if b then true else not c) ≡ true → (b ≡ true) ⊎ (c ≡ false)
admits b c h = ground arith

admits_of : (b c : Bool) → (b ≡ true) ⊎ (c ≡ false) → (if b then true else not c) ≡ true
admits_of b c h = ground arith

both : (b c : Bool) → b && c ≡ true → (b ≡ true) × (c ≡ true)
both b c h = ground arith

both_of : (b c : Bool) → b ≡ true → c ≡ true → b && c ≡ true
both_of b c h k = ground arith

-- The accounts that may serve a request on a channel.
abbrev pub IsRoutable : Cache → List String → List Account → String → Account → Type 0
IsRoutable cache exempt accounts channel x =
    In x accounts
    × (x.active ≡ true)
    × (str_eq x.provider channel ≡ true)
    × ((str_in x.provider exempt ≡ true) ⊎ (quota_exhausted cache x ≡ false))

-- The pool of a channel holds exactly the accounts of the table that are active, on that channel, and not proved
-- to be out of quota unless the request is exempt on their channel.
pub In-channel_pool :
    (cache : Cache) (exempt : List String) (accounts : List Account) (channel : String)
    (x : Account)
    → In x (channel_pool cache exempt accounts channel) ↔ IsRoutable cache exempt accounts channel x
unfolding channel_pool order_accounts get_active_accounts account_available
In-channel_pool cache exempt accounts channel x =
    let here : Account → Bool = λ a. a.active && str_eq a.provider channel in
    let free : Account → Bool =
      λ a. if str_in a.provider exempt then true else not (quota_exhausted cache a) in
    (
      λ i.
          let (j, gate) =
            In-keep free x (keep here accounts) (In-sort_on key_order sort_key x _ i) in
          let (k, place) = In-keep here x accounts j in
          let (on, at) = both _ _ place in (k, on, at, admits _ _ gate),
      λ (k, on, at, gate). In-sort_on_of key_order sort_key x _ (
          In-keep_of free x (keep here accounts) (In-keep_of here x accounts k (both_of _ _ on at))
            (admits_of _ _ gate)),
    )

scaled : (w d n : ℕ) → w ≤ 100 * d → w * n ≤ n * (100 * d)
scaled w d n h = omega (arith, mul_le w (100 * d) n h)

not_lt : (a b : ℕ) → b ≤ a → ltb a b ≡ false
not_lt a b h = ground arith

not_below : (w : Ratio) (n : ℕ) → w.num ≤ 100 * suc w.den_pred → below w n (some n) ≡ false
not_below w n h =
    not_lt (n * (100 * suc w.den_pred)) (w.num * n) (scaled w.num (suc w.den_pred) n h)

full_peak :
    (w : Ratio) (o : Option ℤ)
    → w.num ≤ 100 * suc w.den_pred
    → is_spent o ≡ false
    → low_reading w o (positive o) ≡ false
full_peak w none h k = refl
full_peak w (some (pos zero)) h k = absurd (true≢false k)
full_peak w (some (negsuc n)) h k =
    absurd (true≢false (sym (spent_of (negsuc n) (omega arith)) ∙ k))
full_peak w (some (pos (suc n))) h k = not_below w (suc n) h

labelled :
    (w : Ratio) (p : Option ℕ) (o : Option ℤ)
    → w.num ≤ 100 * suc w.den_pred
    → p ≡ none
    → is_spent o ≡ false
    → (elim w.num [ zero ↦ false | suc _ ↦ low_reading w o (or_else p (positive o)) ]) ≡ false
labelled w p o h e k =
    elim w.num
      as (λ m.
        (elim m [ zero ↦ false | suc _ ↦ low_reading w o (or_else p (positive o)) ]) ≡ false) [
          | zero ↦ refl
          | suc _ ↦ rw e (full_peak w o h k)
        ]

-- Without a positive peak on record, the present reading is its own peak, so that an account that is not out of quota is
-- never called low, at any watermark up to 100 %.
pub quota_low-peak_cell :
    (w : Ratio) (cache : Cache) (account : Account)
    → w.num ≤ 100 * suc w.den_pred
    → positive (peak_cell (resource_snapshot cache account)) ≡ none
    → quota_exhausted cache account ≡ false
    → quota_low w cache account ≡ false
unfolding quota_low peak_quota quota_exhausted
quota_low-peak_cell w cache account h p k =
    labelled w (positive (peak_cell (resource_snapshot cache account)))
      (remaining_quota cache account) h p k
