-- ===== src/Memory/Laws.antt =====
-- What a copy of bytes leaves.
use ext_nrf52_hw_models.Common.{
  ℕ, ◌+◌, ◌≡◌, refl, sym, ◌∙◌, ap, true, false, ◌&&◌, ltb, leb, ◌==◌, ==_iff, if◌then◌else◌, update,
  for_range_inv, arith, Bool-cases, inl, inr, fun_ext, ◌<◌, ◌-◌,
}
use ext_nrf52_hw_models.Memory.{memcpy}

copy_step :
    (from : ℕ) (bytes tx_buf : ℕ → ℕ) (j n : ℕ) (buf : ℕ → ℕ)
    → buf j ≡ (if leb from j && ltb j (from + n) then bytes j else tx_buf j)
    → update buf (from + n) (bytes (from + n)) j
      ≡ (if leb from j && ltb j (from + (n + 1)) then bytes j else tx_buf j)
copy_step from bytes tx_buf j n buf h = elim (Bool-cases (from + n == j)) [
  | inl here ↦
      let same : from + n ≡ j = (==_iff _ _).0 here in
      let inside : (leb from j && ltb j (from + (n + 1))) ≡ true = ground arith in
      rw (here, inside) (ap bytes same)
  | inr other ↦
      let bound : (leb from j && ltb j (from + n)) ≡ (leb from j && ltb j (from + (n + 1))) =
        ground arith in
      rw other (h ∙ ap (λ b. if b then bytes j else tx_buf j) bound)
]

-- The bytes from one place on are those of the source.
pub memcpy_lem :
    (count from : ℕ) (bytes tx_buf : ℕ → ℕ) (j : ℕ)
    → memcpy count from (λ k. bytes (from + k)) tx_buf j
      ≡ (if leb from j && ltb j (from + count) then bytes j else tx_buf j)
unfolding memcpy
memcpy_lem count from bytes tx_buf j =
    let outside : (leb from j && ltb j (from + 0)) ≡ false = ground arith in
    for_range_inv (λ n buf. buf j ≡ (if leb from j && ltb j (from + n) then bytes j else tx_buf j))
      (λ k buf. update buf (from + k) (bytes (from + k)))
      (λ n buf h. copy_step from bytes tx_buf j n buf h) count 0 count tx_buf (omega arith)
      (rw outside refl)

-- What is copied, and what stays.
pub memcpy-copied :
    (count from : ℕ) (bytes to : ℕ → ℕ) (k : ℕ)
    → k < count
    → memcpy count from bytes to (from + k) ≡ bytes k
memcpy-copied count from bytes to k p =
    let shift : (λ (i : ℕ). bytes (from + i - from)) ≡ bytes =
      fun_ext (λ i. let e : from + i - from ≡ i = omega arith in ap bytes e) in
    let inside : (leb from (from + k) && ltb (from + k) (from + count)) ≡ true = ground arith in
    let back : from + k - from ≡ k = omega arith in
    ap (λ b. memcpy count from b to (from + k)) (sym shift)
    ∙ memcpy_lem count from (λ j. bytes (j - from)) to (from + k)
    ∙ ap (λ b. if b then bytes (from + k - from) else to (from + k)) inside
    ∙ ap bytes back

pub memcpy-kept :
    (count from : ℕ) (bytes to : ℕ → ℕ) (j : ℕ)
    → (leb from j && ltb j (from + count)) ≡ false
    → memcpy count from bytes to j ≡ to j
memcpy-kept count from bytes to j outside =
    let shift : (λ (i : ℕ). bytes (from + i - from)) ≡ bytes =
      fun_ext (λ i. let e : from + i - from ≡ i = omega arith in ap bytes e) in
    ap (λ b. memcpy count from b to j) (sym shift)
    ∙ memcpy_lem count from (λ j. bytes (j - from)) to j
    ∙ ap (λ b. if b then bytes (j - from) else to j) outside
