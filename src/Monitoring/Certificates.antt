-- ===== src/Monitoring/Certificates.antt =====
-- `newCertPool` of lib/monitoring/checkers.go. Reading a file, `pem.Decode` and `x509.ParseCertificate` are
-- arguments; a pool is the certificates in the order in which they were added. The loop over the blocks of
-- a file takes fuel, one round more than the file has bytes.
use planet.Base.{
  ℕ, zero, suc, ◌<◌, ◌≡◌, refl, ◌≢◌, Option, none, some, List, [], ◌∷◌, ◌++◌, arith, Text, length,
}
use planet.Trace.{Error, Result, ok, err}

pub data Pooled : Type 0 where
  pool : List Text → Pooled
  failed : Error → Pooled
  out_of_fuel : Pooled

-- `decode` gives the bytes of the first block and what stands behind it.
module _ (decode : Text → Option (Text × Text)) (parse : Text → Result Text) where
  unfoldable pub add_blocks : ℕ → Text → List Text → Pooled
  add_blocks zero pem certs = out_of_fuel
  add_blocks (suc fuel) pem certs = elim (decode pem) [
    | none ↦ pool certs
    | some (block, rest) ↦ elim (parse block) [
      | err e ↦ failed e
      | ok cert ↦ add_blocks fuel rest (certs ++ cert ∷ [])
    ]
  ]

  abbrev add_file : Result Text → List Text → Pooled
  add_file (err e) certs = failed e
  add_file (ok pem) certs = add_blocks (suc (length pem)) pem certs

  unfoldable pub add_files : (Text → Result Text) → List Text → List Text → Pooled
  unfolding add_blocks
  add_files read [] certs = pool certs
  add_files read (f ∷ fs) certs = elim (add_file (read f) certs) [
    | pool certs' ↦ add_files read fs certs'
    | failed e ↦ failed e
    | out_of_fuel ↦ out_of_fuel
  ]

  unfoldable pub new_cert_pool : (Text → Result Text) → List Text → Pooled
  unfolding add_files
  new_cert_pool read files = add_files read files []

  -- What stands behind a block is shorter than the input.
  abbrev pub Shortens : Type 0
  Shortens = (pem block rest : Text) → decode pem ≡ some (block, rest) → length rest < length pem

  parsed-ends :
      (fuel : ℕ) (rest : Text) (certs : List Text) (r : Result Text)
      → ((cert : Text) → add_blocks fuel rest (certs ++ cert ∷ []) ≢ out_of_fuel)
      → (elim r [ err e ↦ failed e | ok cert ↦ add_blocks fuel rest (certs ++ cert ∷ []) ])
        ≢ out_of_fuel
  parsed-ends fuel rest certs (err e) h = λ x. cc
  parsed-ends fuel rest certs (ok cert) h = h cert

  add_blocks-ends :
      Shortens
      → (fuel : ℕ) (pem : Text) (certs : List Text) → length pem < fuel
      → add_blocks fuel pem certs ≢ out_of_fuel
  unfolding add_blocks
  add_blocks-ends h zero pem certs k = absurd (omega arith)
  add_blocks-ends h (suc fuel) pem certs k = decoded (decode pem) refl (λ block rest cert e.
      add_blocks-ends h fuel rest (certs ++ cert ∷ []) (omega (arith, h pem block rest e)))
    where
      decoded :
          (o : Option (Text × Text))
          → decode pem ≡ o
          → ((block rest cert : Text)
              → decode pem ≡ some (block, rest)
              → add_blocks fuel rest (certs ++ cert ∷ []) ≢ out_of_fuel)
          → (elim o [
            | none ↦ pool certs
            | some (block, rest) ↦ elim (parse block) [
              | err e ↦ failed e
              | ok cert ↦ add_blocks fuel rest (certs ++ cert ∷ [])
            ]
          ])
            ≢ out_of_fuel
      decoded none e ih = λ x. cc
      decoded (some (block, rest)) e ih =
          parsed-ends fuel rest certs (parse block) (λ cert. ih block rest cert e)

  add_file-ends : Shortens → (r : Result Text) (certs : List Text) → add_file r certs ≢ out_of_fuel
  add_file-ends h (err e) certs = λ x. cc
  add_file-ends h (ok pem) certs = add_blocks-ends h (suc (length pem)) pem certs (omega arith)

  then-ends :
      (p : Pooled) (f : List Text → Pooled)
      → p ≢ out_of_fuel
      → ((certs : List Text) → f certs ≢ out_of_fuel)
      → (elim p [ pool certs ↦ f certs | failed e ↦ failed e | out_of_fuel ↦ out_of_fuel ])
        ≢ out_of_fuel
  then-ends (pool certs) f h k = k certs
  then-ends (failed e) f h k = λ x. cc
  then-ends out_of_fuel f h k = h

  add_files-ends :
      Shortens
      → (read : Text → Result Text) (files certs : List Text)
      → add_files read files certs ≢ out_of_fuel
  unfolding add_files
  add_files-ends h read [] certs = λ x. cc
  add_files-ends h read (f ∷ fs) certs =
      then-ends (add_file (read f) certs) (add_files read fs) (add_file-ends h (read f) certs)
        (add_files-ends h read fs)

-- Where what `pem.Decode` leaves is shorter than its input, the loops over the files and their blocks end:
-- there is a pool or an error.
pub new_cert_pool_ends :
    (decode : Text → Option (Text × Text)) (parse read : Text → Result Text) (files : List Text)
    → Shortens decode parse
    → new_cert_pool decode parse read files ≢ out_of_fuel
unfolding new_cert_pool
new_cert_pool_ends decode parse read files h = add_files-ends decode parse h read files []
