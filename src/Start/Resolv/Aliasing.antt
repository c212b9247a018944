-- ===== src/Start/Resolv/Aliasing.antt =====
-- What `copyResolvFile` leaves of the listen addresses.
use planet.Start.Resolv.{append_slice, drop, take, elements, Slice, add_resolv}
use planet.Resolver.{DnsConfig}
use planet.Base.{
  ℕ, suc, ◌+◌, ◌≡◌, refl, ap, inl, inr, true, false, List, [], ◌∷◌, ◌++◌, arith, leb, ◌==◌,
  if◌then◌else◌, Bool-cases, Text, length,
}

one_add : (m : ℕ) → 1 + m ≡ suc m
one_add m = omega arith

suc-ne-zero : (n : ℕ) → (suc n == 0) ≡ false
suc-ne-zero n = ground arith

take_zero : (xs : List Text) → take 0 xs ≡ []
take_zero [] = refl
take_zero (x ∷ xs) = refl

drop_one : (a : Text) (rest : List Text) (m : ℕ) → drop (1 + m) (a ∷ rest) ≡ drop m rest
drop_one a rest m = ap (λ k. drop k (a ∷ rest)) (one_add m)

append_first-fits :
    (a : Text) (rest xs : List Text)
    → leb (length xs) (length rest) ≡ true
    → append_slice (record { array = a ∷ rest; len = 1 }) xs
      ≡ (a ∷ xs, a ∷ (xs ++ drop (length xs) rest))
unfolding append_slice
append_first-fits a rest xs e =
    let fits : leb (1 + length xs) (suc (length rest)) ≡ true = ground (arith, e) in
    rw take_zero (rw fits (rw drop_one refl))

append_first-grows :
    (a : Text) (rest xs : List Text)
    → leb (length xs) (length rest) ≡ false
    → append_slice (record { array = a ∷ rest; len = 1 }) xs ≡ (a ∷ xs, a ∷ rest)
unfolding append_slice
append_first-grows a rest xs e =
    let grows : leb (1 + length xs) (suc (length rest)) ≡ false = ground (arith, e) in
    rw take_zero (rw grows refl)

-- The container's resolver asks the first listen address and then the host's servers. Where these fit
-- the capacity of the slice of listen addresses behind its first, they take the place of the other
-- listen addresses; where they do not, the listen addresses are kept.
pub add_resolv_lem :
    (conf : DnsConfig) (a : Text) (rest : List Text) (n : ℕ)
    → let addrs : Slice = record { array = a ∷ rest; len = suc n } in
      ((add_resolv conf addrs).0.servers ≡ a ∷ conf.servers)
      × (elements (add_resolv conf addrs).1 ≡ (
          if leb (length conf.servers) (length rest)
          then a ∷ take n (conf.servers ++ drop (length conf.servers) rest)
          else a ∷ take n rest))
unfolding add_resolv
add_resolv_lem conf a rest n = elim (Bool-cases (leb (length conf.servers) (length rest))) [
  | inl e ↦ rw (append_first-fits a rest conf.servers e) (rw (suc-ne-zero n) (rw e (refl, refl)))
  | inr e ↦ rw (append_first-grows a rest conf.servers e) (rw (suc-ne-zero n) (rw e (refl, refl)))
]
