-- ===== src/Record/Header.antt =====
-- The loop that sizes a record's header ends, with the least size that counts its own varint.
use velr.Base.{
  ℕ, zero, suc, ◌+◌, ◌≤◌, some, ◌≡◌, inl, inr, refl, arith, Bool-cases, ◌==◌, ==_iff, ==→ne,
}
use velr.Varint.{varint_len}
use velr.Varint.Length.{varint_len_mono}
use velr.Varint.RoundTrip.{length-varint}
use velr.Record.{header_size_loop}

pub record HeaderSize (serial_bytes h : ℕ) : Type 0 where
  pub counts_itself : h ≡ serial_bytes + varint_len h
  pub least : (k : ℕ) → k ≡ serial_bytes + varint_len k → h ≤ k

loop_ends :
    (fuel serial_bytes h : ℕ)
    → h ≤ serial_bytes + varint_len h
    → serial_bytes + 10 ≤ h + fuel
    → ((k : ℕ) → k ≡ serial_bytes + varint_len k → h ≤ k)
    → (r : ℕ) × (header_size_loop fuel serial_bytes h ≡ some r) × HeaderSize serial_bytes r
unfolding header_size_loop
loop_ends zero s h low enough least = absurd (omega (arith, length-varint h))
loop_ends (suc fuel) s h low enough least = elim (Bool-cases ((s + varint_len h) == h)) [
  | inl same ↦ rw same (
    h,
    refl,
    record { counts_itself = omega (arith, (==_iff (s + varint_len h) h).0 same); least = least },
  )
  | inr other ↦
      let grows = ==→ne (s + varint_len h) h other in
      rw other (
        loop_ends fuel s (s + varint_len h)
          (omega (arith, varint_len_mono h (s + varint_len h) low)) (omega arith)
          (λ k e. omega (arith, varint_len_mono h k (least k e))))
]

-- Ten rounds are enough for every header.
pub HeaderSize-ends :
    (serial_bytes : ℕ)
    → (h : ℕ) × (header_size_loop 10 serial_bytes (serial_bytes + 1) ≡ some h)
      × HeaderSize serial_bytes h
HeaderSize-ends s =
    loop_ends 10 s (s + 1) (omega (arith, length-varint (s + 1))) (omega arith)
      (λ k e. omega (arith, length-varint k))
