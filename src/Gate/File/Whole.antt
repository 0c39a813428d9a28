-- ===== src/Gate/File/Whole.antt =====
-- A file is returned whole, however the operating system cuts it, or not at all.
use devpath_shared.Base.{
  ℕ, zero, suc, ◌+◌, ◌-◌, ◌≤◌, ◌<◌, ◌≡◌, refl, sym, ◌∙◌, ap, ◌↔◌, true, false, [], ◌∷◌, ◌++◌,
  String, ◌==◌, length, if◌then◌else◌, arith,
}
use devpath_shared.Base.Result.{ok}
use devpath_shared.Runtime.{Bytes}
use devpath_shared.Gate.Text.{
  take, drop, length-take, length-drop, take-nil, drop-drop, drop-end, take-all,
}
use devpath_shared.Gate.File.{File, min, is_empty, read_chunks, read_regular_file}

-- What the documentation of `os.read` says, of a file with this content: it returns what stands at the
-- offset, no more than the limit, and something unless the end is reached.
abbrev pub Serves : File → Bytes → Type 0
Serves file content =
    (offset limit : ℕ)
    → offset ≤ length content
    → 0 < limit
    → (k : ℕ) × (file.os_read offset limit ≡ take k (drop offset content))
      × (k ≤ limit)
      × (offset + k ≤ length content)
      × (offset < length content → 0 < k)

take-append_drop : (k r : ℕ) (s : Bytes) → take k s ++ take r (drop k s) ≡ take (k + r) s
take-append_drop zero r s = ground arith
take-append_drop (suc k) r [] = take-nil r ∙ sym (take-nil (suc k + r))
take-append_drop (suc k) r (c ∷ s) =
    let e : suc k + r ≡ suc (k + r) = omega arith in
    rw e (ap (λ (t : Bytes). c ∷ t) (take-append_drop k r s))

is_empty-false : (s : Bytes) → 0 < length s → is_empty s ≡ false
is_empty-false [] h = absurd (omega arith)
is_empty-false (c ∷ s) h = refl

length-take_more : (n : ℕ) (s : Bytes) → (length (take (suc n) s) ≡ n) ↔ (length s ≡ n)
length-take_more n [] = ground arith
length-take_more zero (c ∷ s) = ground arith
length-take_more (suc n) (c ∷ s) = ground (arith, length-take_more n s)

module _ (file : File) (content : Bytes) (serves : Serves file content) where
  -- A round that reads `k` bytes, and the rounds after it.
  round :
      (k r offset : ℕ) (chunk rest : Bytes)
      → chunk ≡ take k (drop offset content)
      → k ≤ suc r
      → offset + k ≤ length content
      → (offset < length content → 0 < k)
      → (0 < k → rest ≡ take (suc r - k) (drop (offset + k) content))
      → (if is_empty chunk then [] else chunk ++ rest) ≡ take (suc r) (drop offset content)
  round zero r offset chunk rest is_chunk small inside more later =
      rw (is_chunk, drop-end offset content (ground (arith, more))) refl
  round (suc k) r offset chunk rest is_chunk small inside more later =
      let size : length (take (suc k) (drop offset content)) ≡ suc k =
        length-take (suc k) (drop offset content)
          (omega (arith, length-drop offset content (omega arith))) in
      rw
        (
          is_chunk,
          is_empty-false (take (suc k) (drop offset content)) (omega (arith, size)),
          later (omega arith),
          ← (drop-drop offset (suc k) content),
        )
        (take-append_drop (suc k) (suc r - suc k) (drop offset content)
          ∙ ap (λ (n : ℕ). take n (drop offset content)) {y = suc r} (omega arith))

  chunks_lem :
      (fuel offset remaining : ℕ)
      → offset ≤ length content
      → remaining ≤ fuel
      → read_chunks file fuel offset remaining ≡ take remaining (drop offset content)
  unfolding read_chunks
  chunks_lem zero offset remaining h enough = let e : remaining ≡ 0 = omega arith in rw e refl
  chunks_lem (suc fuel) offset zero h enough = refl
  chunks_lem (suc fuel) offset (suc r) h enough =
      let (k, served, small, inside, more) = serves offset (min (suc r) 65536) h (ground arith) in
      let fits : k ≤ suc r = ground (arith, small) in
      let size : length (file.os_read offset (min (suc r) 65536)) ≡ k =
        ap length served
        ∙ length-take k (drop offset content)
            (omega (arith, inside, length-drop offset content h)) in
      let more_to_read : (suc r == 0) ≡ false = ground arith in
      rw more_to_read (
        round k r offset (file.os_read offset (min (suc r) 65536)) _ served fits inside more
          (λ (above : 0 < k).
            rw size
              (chunks_lem fuel (offset + k) (suc r - k) inside (omega (arith, above, enough)))))

  -- Whatever pieces the operating system hands out, a file is returned exactly when it is no link, can
  -- be opened, is regular, is not empty and within the bound, has as many bytes as was said before,
  -- and is still the same file, of the same size and time, afterwards; and what is returned is all of
  -- its content. So the loop ends, and a file that is longer or shorter than it said is refused.
  pub read_regular_file_iff :
      (label : String) (maximum : ℕ) (raw : Bytes)
      → (read_regular_file file label maximum ≡ ok raw) ↔ (
          (raw ≡ content)
          × (file.is_symlink ≡ false)
          × (file.opens ≡ true)
          × (file.before.is_regular ≡ true)
          × (0 < file.before.size)
          × (file.before.size ≤ maximum)
          × (length content ≡ file.before.size)
          × (file.after.dev ≡ file.before.dev)
          × (file.after.ino ≡ file.before.ino)
          × (file.after.size ≡ file.before.size)
          × (file.after.mtime_ns ≡ file.before.mtime_ns))
  unfolding read_regular_file
  read_regular_file_iff label maximum raw = rw read_all (
      ground
        (arith, length-take_more file.before.size content, take-all (suc file.before.size) content))
    where
      read_all :
          read_chunks file (suc file.before.size) 0 (suc file.before.size)
          ≡ take (suc file.before.size) content
      read_all =
          chunks_lem (suc file.before.size) 0 (suc file.before.size) (omega arith) (omega arith)
