-- ===== src/Playback/Frames.antt =====
-- `audio_playback_write_all_frames`: what the device takes.
use xiaozhi.Base.{
  ℕ, zero, suc, ◌≡◌, ◌≢◌, ◌≤◌, ◌+◌, ◌-◌, ◌*◌, refl, sym, ap, subst, ◌∙◌, true, false, List, [], ◌∷◌,
  ◌++◌, Option, none, some, arith, ltb, ◌||◌, ◌==◌, length, take, drop, take-nil, drop-nil,
  take_all, ok, failed, Bool-cases, inl, inr, Option-cases,
}
use xiaozhi.Base.Int.{ℤ}
use xiaozhi.Playback.{Answer, wrote, error, Written, takes, write_loop, write_all_frames}

-- The contract of `write_frames`: it takes no more frames than it is given.
abbrev pub Honest : ℕ → List Answer → Type 0
Honest left [] = Unit
Honest left (wrote n ∷ answers) = (n ≤ left) × Honest (left - n) answers
Honest left (error r ∷ answers) = Honest left answers

add_suc : (m n : ℕ) → suc m + n ≡ suc (m + n)
add_suc m n = omega arith

take-add : {A : Type 0} (m n : ℕ) (xs : List A) → take (m + n) xs ≡ take m xs ++ take n (drop m xs)
take-add zero n xs = ap (λ k. take k xs) (omega arith)
take-add {A = A} (suc m) n [] = rw (add_suc m n, take-nil A n) refl
take-add (suc m) n (x ∷ xs) = rw (add_suc m n, take-add m n xs) refl

drop-add : {A : Type 0} (m n : ℕ) (xs : List A) → drop (m + n) xs ≡ drop n (drop m xs)
drop-add zero n xs = ap (λ k. drop k xs) (omega arith)
drop-add {A = A} (suc m) n [] = rw (add_suc m n, drop-nil A n) refl
drop-add (suc m) n (x ∷ xs) = rw (add_suc m n, drop-add m n xs) refl

takes-some :
    (s : List ℤ) (o : Option Written) (w : Written)
    → takes s o ≡ some w
    → (v : Written) × (o ≡ some v) × (w.result ≡ v.result) × (w.taken ≡ s ++ v.taken)
takes-some s none w e = absurd (cc)
takes-some s (some v) w e = (v, refl, ground (arith, e), ground (arith, e))

add_mul : (m n c : ℕ) → (m + n) * c ≡ m * c + n * c
add_mul m n c = grind arith

left_over : (f w n : ℕ) → n ≤ f - w → f - w ≡ n + (f - (w + n))
left_over f w n h = omega arith

none_left : (f w : ℕ) → f ≤ w → f - w ≡ 0
none_left f w h = omega arith

-- The frames after one write.
after_write :
    (pcm : List ℤ) (frames channels written n : ℕ)
    → n ≤ frames - written
    → take (n * channels) (drop (written * channels) pcm)
        ++ take ((frames - (written + n)) * channels) (drop ((written + n) * channels) pcm)
      ≡ take ((frames - written) * channels) (drop (written * channels) pcm)
after_write pcm frames channels written n h =
    let a = n * channels in
    let b = (frames - (written + n)) * channels in
    let p = drop (written * channels) pcm in
    let e : (written + n) * channels ≡ written * channels + a = grind arith in
    let f : (frames - written) * channels ≡ a + b =
      ap (λ k. k * channels) (left_over frames written n h)
      ∙ add_mul n (frames - (written + n)) channels in
    rw (e, f, drop-add (written * channels) a pcm) (sym (take-add a b p))

no_frames :
    (pcm : List ℤ) (frames channels written : ℕ)
    → frames ≤ written
    → take ((frames - written) * channels) pcm ≡ []
no_frames pcm frames channels written h =
    let e : (frames - written) * channels ≡ 0 = rw (none_left frames written h) (omega arith) in
    rw e refl

-- What a loop that ends with 0 has given to the device.
loop_taken :
    (pcm : List ℤ) (frames channels written : ℕ) (answers : List Answer) (w : Written)
    → written ≤ frames
    → Honest (frames - written) answers
    → write_loop pcm frames channels written answers ≡ some w
    → w.result ≡ ok
    → w.taken ≡ take ((frames - written) * channels) (drop (written * channels) pcm)
unfolding write_loop
loop_taken pcm frames channels written [] w l h e r =
    let d = no_frames (drop (written * channels) pcm) frames channels written in ground (arith, d)
loop_taken pcm frames channels written (wrote zero ∷ answers) w l h e r =
    let d = no_frames (drop (written * channels) pcm) frames channels written in ground (arith, d)
loop_taken pcm frames channels written (wrote (suc n) ∷ answers) w l h e r =
    elim (Bool-cases (ltb written frames)) [
      | inl t ↦
          let (v, f, g, k) =
            takes-some (take (suc n * channels) (drop (written * channels) pcm))
              (write_loop pcm frames channels (written + suc n) answers) w (ground arith) in
          let ih =
            loop_taken pcm frames channels (written + suc n) answers v (omega arith)
              (subst (λ k. Honest k answers) (omega arith) h.1) f (sym g ∙ r) in
          k
          ∙ ap (λ s. take (suc n * channels) (drop (written * channels) pcm) ++ s) ih
          ∙ after_write pcm frames channels written (suc n) h.0
      | inr t ↦ ground (arith, no_frames (drop (written * channels) pcm) frames channels written)
    ]
loop_taken pcm frames channels written (error false ∷ answers) w l h e r =
    let d = no_frames (drop (written * channels) pcm) frames channels written in ground (arith, d)
loop_taken pcm frames channels written (error true ∷ answers) w l h e r =
    elim (Bool-cases (ltb written frames)) [
      | inl t ↦ loop_taken pcm frames channels written answers w l h (ground arith) r
      | inr t ↦ ground (arith, no_frames (drop (written * channels) pcm) frames channels written)
    ]

-- The frames that a device takes in its answers.
abbrev pub accepted : List Answer → ℕ
accepted [] = 0
accepted (wrote n ∷ answers) = n + accepted answers
accepted (error r ∷ answers) = accepted answers

loop_ends :
    (pcm : List ℤ) (frames channels written : ℕ) (answers : List Answer)
    → frames ≤ written + accepted answers
    → write_loop pcm frames channels written answers ≢ none
unfolding write_loop
loop_ends pcm frames channels written [] h = ground arith
loop_ends pcm frames channels written (wrote zero ∷ answers) h = ground arith
loop_ends pcm frames channels written (wrote (suc n) ∷ answers) h =
    let ih = loop_ends pcm frames channels (written + suc n) answers (omega arith) in
    ground (arith, ih)
loop_ends pcm frames channels written (error false ∷ answers) h = ground arith
loop_ends pcm frames channels written (error true ∷ answers) h =
    let ih = loop_ends pcm frames channels written answers h in ground (arith, ih)

whole :
    (pcm : List ℤ) (frames channels : ℕ)
    → length pcm ≡ frames * channels
    → take ((frames - 0) * channels) (drop (0 * channels) pcm) ≡ pcm
whole pcm frames channels h =
    let e : (frames - 0) * channels ≡ length pcm = ap (λ k. k * channels) (omega arith) ∙ sym h in
    let f : 0 * channels ≡ 0 = omega arith in rw (e, f) (take_all (length pcm) pcm (omega arith))

-- `audio_playback_write_all_frames` comes to an end once the device has offered to take as many frames
-- as there are, whatever short writes and recoveries lie between; and if it then returns 0, and the
-- device never took more than it was given, the device has taken all the samples, each once and in
-- order. The samples are those of the frames.
pub write_all_frames_lem :
    (pcm : List ℤ) (frames channels : ℕ) (answers : List Answer)
    → length pcm ≡ frames * channels
    → Honest frames answers
    → frames ≤ accepted answers
    → (w : Written) × (write_all_frames pcm frames channels answers ≡ some w)
      × (w.result ≡ ok → w.taken ≡ pcm)
unfolding write_all_frames
write_all_frames_lem pcm frames channels answers len h enough =
    elim (Bool-cases (frames == 0 || channels == 0)) [
      | inl b ↦ rw b (record { result = failed; taken = [] }, refl, λ e. cc)
      | inr b ↦ elim (Option-cases (write_loop pcm frames channels 0 answers)) [
        | inl e ↦ absurd (loop_ends pcm frames channels 0 answers (omega arith) e)
        | inr (w, e) ↦ rw b (
          w,
          e,
          λ r.
              loop_taken pcm frames channels 0 answers w (omega arith)
                (subst (λ k. Honest k answers) (omega arith) h) e r
              ∙ whole pcm frames channels len,
        )
      ]
    ]
