-- ===== src/Tus/Job/Segments.antt =====
-- What a segment holds.
use ios_sdk_develop.Prelude.{
  ℕ, zero, suc, ◌-◌, ◌<◌, ◌≤◌, ◌≡◌, refl, ap, sym, ◌∙◌, true, false, ◌||◌, Option, some, List, [],
  ◌∷◌, ◌++◌, ◌==◌, ltb, length, take, if◌then◌else◌, Text, text_eq, text_eq_refl, lookup, arith,
  Bool-cases, inl, inr,
}
use ios_sdk_develop.Tus.Job.{
  Segment, Job, Files, rest_from, after_chunk, copy_chunks, copy_chunk_size, is_last,
  remove_last_segment, request_segment,
}

-- Nothing is read only at the end, or where nothing is to be read.
take-empty :
    (n m : ℕ) (bs : List ℕ) → (length (take n bs) == 0) ≡ true → (n == 0) ≡ false → take m bs ≡ []
take-empty zero m bs h k = cc
take-empty (suc n) zero [] h k = refl
take-empty (suc n) (suc m) [] h k = refl
take-empty (suc n) m (b ∷ bs) h k = ground arith

-- A chunk and what follows it.
take-chunk :
    (n m : ℕ) (bs : List ℕ)
    → n ≤ m
    → take n bs ++ take (m - length (take n bs)) (rest_from n bs) ≡ take m bs
take-chunk zero m bs h = ap (λ i. take i bs) (omega arith)
take-chunk (suc n) m [] h = ap (λ i. take {A = ℕ} i []) (omega arith)
take-chunk (suc n) zero (b ∷ bs) h = absurd (omega arith)
take-chunk (suc n) (suc m) (b ∷ bs) h =
    ap (λ l. b ∷ l)
      (ap (λ i. take n bs ++ take i (rest_from n bs)) (omega arith)
        ∙ take-chunk n m bs (omega arith))

chunk-copied :
    (c s chunk : ℕ) (unread : List ℕ) (copied : Option (List ℕ))
    → c ≤ suc s
    → (c == 0) ≡ false
    → (chunk == 0) ≡ false
    → ((length (take c unread) == 0) ≡ false
        → copied ≡ some (take (suc s - length (take c unread)) (rest_from c unread)))
    → (if suc s == 0 || (chunk == 0 || length (take c unread) == 0)
        then some []
        else after_chunk (take c unread) copied)
      ≡ some (take (suc s) unread)
chunk-copied c s chunk unread copied fits some_read k rest =
    elim (Bool-cases (length (take c unread) == 0)) [
      | inl e ↦ rw (suc-positive s, k, e) (ap some (sym (take-empty c (suc s) unread e some_read)))
      | inr e ↦ rw (suc-positive s, k, e) (rw (rest e) (ap some (take-chunk c (suc s) unread fits)))
    ]
  where
    suc-positive : (n : ℕ) → (suc n == 0) ≡ false
    suc-positive n = ground arith

-- With more fuel than there are bytes to copy, the loop ends and has copied the bytes, up to the size.
pub copy_chunks-take :
    (fuel chunk size : ℕ) (unread : List ℕ)
    → size < fuel
    → (chunk == 0) ≡ false
    → copy_chunks fuel chunk size unread ≡ some (take size unread)
unfolding copy_chunks
copy_chunks-take zero chunk size unread h k = absurd (omega arith)
copy_chunks-take (suc fuel) chunk zero unread h k = refl
copy_chunks-take (suc fuel) chunk (suc s) unread h k =
    let c = if ltb (suc s) chunk then suc s else chunk in
    let positive : (c == 0) ≡ false = ground arith in
    chunk-copied c s chunk unread _ (ground arith) positive k (λ e.
      copy_chunks-take fuel c (suc s - length (take c unread)) (rest_from c unread) (ground arith)
        positive)

-- A segment that is requested where the last one does not serve is the file from the offset, up to the
-- size; it says how long it is, it stands at its URL, and the job keeps it.
pub request_segment-new :
    (fs : Files) (url source : Text) (offset size : ℕ) (j : Job) (bytes : List ℕ)
    → is_last fs offset size j.last_segment ≡ false
    → j.file_url ≡ some source
    → lookup text_eq source (remove_last_segment j.last_segment fs) ≡ some bytes
    → let copied = take size (rest_from offset bytes) in
      let s : Segment = record { offset = offset; size = length copied; url = some url } in
      ((request_segment fs url offset size j).segment ≡ some s)
      × ((request_segment fs url offset size j).job.last_segment ≡ some s)
      × (lookup text_eq url (request_segment fs url offset size j).files ≡ some copied)
unfolding request_segment
request_segment-new fs url source offset size j bytes new file there =
    let copied =
      copy_chunks-take (suc size) copy_chunk_size size (rest_from offset bytes) (omega arith)
        refl in
    rw (new, file) (rw there (rw copied (refl, refl, rw (text_eq_refl url) refl)))
