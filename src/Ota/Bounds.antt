-- ===== src/Ota/Bounds.antt =====
-- The buffers of the OTA request.
use xiaozhi.Base.{
  ℕ, zero, suc, ◌≡◌, ◌≤◌, ◌<◌, ◌-◌, refl, sym, ap, ◌∙◌, List, [], ◌∷◌, ◌++◌, append_assoc,
  append-nil, arith, length, take, take_all, length-take, leb, if◌then◌else◌, Bool-cases, inl, inr,
}
use xiaozhi.Base.Strings.{Bytes}
use xiaozhi.Ota.{append_reads}

abbrev pub concat : List Bytes → Bytes
concat [] = []
concat (b ∷ bs) = b ++ concat bs

none_left : (n m : ℕ) → n ≤ m → n - m ≡ 0
none_left n m h = omega arith

take-append : (n : ℕ) (a b : Bytes) → length a ≤ n → take n (a ++ b) ≡ a ++ take (n - length a) b
take-append n [] b h = ap (λ k. take k b) (omega arith)
take-append zero (x ∷ a) b h = absurd (omega arith)
take-append (suc n) (x ∷ a) b h =
    ap (λ t. x ∷ t) (take-append n a b (omega arith) ∙ ap (λ k. a ++ take k b) (omega arith))

take-take_append : (n : ℕ) (a c : Bytes) → take n (take n a ++ c) ≡ take n (a ++ c)
take-take_append zero a c = refl
take-take_append (suc n) [] c = refl
take-take_append (suc n) (x ∷ a) c = ap (λ t. x ∷ t) (take-take_append n a c)

-- One read.
read_step :
    (dst buffer : Bytes) (n : ℕ)
    → length dst ≤ n
    → (if leb n (length dst) then dst else dst ++ take (n - length dst) buffer)
      ≡ take n (dst ++ buffer)
read_step dst buffer n h = elim (Bool-cases (leb n (length dst))) [
  | inl e ↦
      rw (e, take-append n dst buffer h, none_left n (length dst) (ground arith))
        (sym (append-nil dst))
  | inr e ↦ rw (e, take-append n dst buffer h) refl
]

reads_kept :
    (dst : Bytes) (size : ℕ) (reads : List Bytes)
    → length dst ≤ size - 1
    → append_reads dst size reads ≡ take (size - 1) (dst ++ concat reads)
unfolding append_reads
reads_kept dst size [] h = rw (append-nil dst) (sym (take_all (size - 1) dst h))
reads_kept dst size (buffer ∷ reads) h =
    rw
      (
        read_step dst buffer (size - 1) h,
        reads_kept (take (size - 1) (dst ++ buffer)) size reads
            (omega (arith, length-take (size - 1) (dst ++ buffer))),
        take-take_append (size - 1) (dst ++ buffer) (concat reads),
        append_assoc dst buffer (concat reads),
      )
      refl

-- However the output of the child is cut into reads, and however long it is, what is kept of it is the
-- whole output or its first `size - 1` bytes, which leave room for the NUL in the buffer of `size`.
pub append_reads_lem :
    (size : ℕ) (reads : List Bytes)
    → 0 < size
    → (append_reads [] size reads ≡ take (size - 1) (concat reads))
      × (length (append_reads [] size reads) < size)
append_reads_lem size reads h =
    let e = reads_kept [] size reads (omega arith) in
    (e, rw e (omega (arith, length-take (size - 1) (concat reads))))
