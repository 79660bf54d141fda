-- ===== src/Copycd/Cache/Laws.antt =====
-- What copy_image and ensure_osimage of xcat3/copycd/cache.py leave.
use xcat.Prelude.{
  ℕ, zero, suc, ◌+◌, ◌≤◌, ◌<◌, ◌≡◌, refl, sym, ap, ◌∙◌, false, String, Option, none, some, List, [],
  ◌∷◌, arith, inl, inr, Bool-cases, ltb, length, take, drop, take-append-drop, drop-drop, Bool,
  true, eqb, ◌&&◌, ◌++◌, if◌then◌else◌,
}
use mathlib.Core.Logic.{◌↔◌}
use xcat.Db.{type_error, Result, ok, err}
use xcat.Pxe.Tree.{
  FilePath, Files, file, read, same_path, write_to_file, read-write_to_file, read-remove_where,
}
use xcat.Copycd.Cache.{
  Sendfile, block_size, copy_from, copy_image, iso_path, fetch_image, ensure_osimage,
}

-- The documented behaviour of sendfile: it copies bytes from the offset on, at most as many as it is asked
-- for and there are, and maybe fewer.
abbrev pub IsSendfile {ℓ} : {A : Type ℓ} → Sendfile A → Type ℓ
IsSendfile {A} sendfile =
    (source : List A) (offset count : ℕ)
    → (sent : ℕ) × (sent ≤ count) × (sendfile source offset count ≡ take sent (drop offset source))

module _ {ℓ} {A : Type ℓ} where
  take-all : (n : ℕ) (xs : List A) → length xs ≤ n → take n xs ≡ xs
  take-all zero [] h = refl
  take-all zero (x ∷ xs) h = absurd (omega arith)
  take-all (suc n) [] h = refl
  take-all (suc n) (x ∷ xs) h = ap (λ l. x ∷ l) (take-all n xs (omega arith))

  length-drop : (n : ℕ) (xs : List A) → length (drop n xs) ≤ length xs
  length-drop zero xs = omega arith
  length-drop (suc n) [] = omega arith
  length-drop (suc n) (x ∷ xs) = omega (arith, length-drop n xs)

  drop-all : (n : ℕ) (xs : List A) → length xs ≤ n → drop n xs ≡ []
  drop-all zero [] h = refl
  drop-all zero (x ∷ xs) h = absurd (omega arith)
  drop-all (suc n) [] h = refl
  drop-all (suc n) (x ∷ xs) h = drop-all n xs (omega arith)

  length-take_mono : (n m : ℕ) (xs : List A) → n ≤ m → length (take n xs) ≤ length (take m xs)
  length-take_mono zero m xs h = omega arith
  length-take_mono (suc n) zero xs h = absurd (omega arith)
  length-take_mono (suc n) (suc m) [] h = omega arith
  length-take_mono (suc n) (suc m) (x ∷ xs) h = omega (arith, length-take_mono n m xs (omega arith))

  -- A prefix that is as long as a longer one is that one.
  take-as_long :
      (n m : ℕ) (xs : List A)
      → n ≤ m
      → length (take n xs) ≡ length (take m xs)
      → take n xs ≡ take m xs
  take-as_long zero zero xs h e = refl
  take-as_long zero (suc m) [] h e = refl
  take-as_long zero (suc m) (x ∷ xs) h e = absurd (omega arith)
  take-as_long (suc n) zero xs h e = absurd (omega arith)
  take-as_long (suc n) (suc m) [] h e = refl
  take-as_long (suc n) (suc m) (x ∷ xs) h e =
      ap (λ l. x ∷ l) (take-as_long n m xs (omega arith) (omega arith))

  length-split : (n : ℕ) (xs : List A) → length (take n xs) + length (drop n xs) ≡ length xs
  length-split zero xs = omega arith
  length-split (suc n) [] = omega arith
  length-split (suc n) (x ∷ xs) = omega (arith, length-split n xs)

  length-append : (xs ys : List A) → length (xs ++ ys) ≡ length xs + length ys
  length-append [] ys = omega arith
  length-append (x ∷ xs) ys = omega (arith, length-append xs ys)

  module _ (sendfile : Sendfile A) (block : ℕ) where
    -- Whether a call has copied as many bytes as it is asked for and there are
    abbrev pub is_full : List A → ℕ → ℕ → Bool
    is_full source offset count =
        eqb (length (sendfile source offset count)) (length (take count (drop offset source)))

    -- Whether every call of the loop from `offset` on has
    abbrev pub all_full : ℕ → List A → ℕ → Bool
    all_full zero source offset = true
    all_full (suc fuel) source offset =
        let rest = all_full fuel source (offset + block) in
        if ltb (offset + block) (length source)
        then is_full source offset block && rest
        else is_full source offset (length source)

  module _ (sendfile : Sendfile A) (copies : IsSendfile sendfile) (block : ℕ)
      (some_bytes : 0 < block) where
    is_full-takes :
        (source : List A) (offset count : ℕ)
        → is_full sendfile block source offset count ≡ true
        → sendfile source offset count ≡ take count (drop offset source)
    is_full-takes source offset count full =
        let (sent, le, e) = copies source offset count in
        let as_long : length (take sent (drop offset source))
            ≡ length (take count (drop offset source)) =
          sym (ap length e) ∙ ground (arith, full) in
        e ∙ take-as_long sent count (drop offset source) le as_long

    copy_from-drop :
        (fuel : ℕ) (source : List A) (offset : ℕ)
        → length source < offset + fuel
        → all_full sendfile block fuel source offset ≡ true
        → copy_from sendfile fuel block source offset ≡ drop offset source
    unfolding copy_from
    copy_from-drop zero source offset h full = sym (drop-all offset source (omega arith))
    copy_from-drop (suc fuel) source offset h full =
        elim (Bool-cases (ltb (offset + block) (length source))) [
          | inl more ↦
              let here : is_full sendfile block source offset block ≡ true =
                ground (arith, full, more) in
              let later : all_full sendfile block fuel source (offset + block) ≡ true =
                ground (arith, full, more) in
              rw
                (
                  more,
                  is_full-takes source offset block here,
                  copy_from-drop fuel source (offset + block) (ground arith) later,
                  ← drop-drop offset block source,
                )
                (take-append-drop block (drop offset source))
          | inr last ↦
              let here : is_full sendfile block source offset (length source) ≡ true =
                ground (arith, full, last) in
              rw (last, is_full-takes source offset (length source) here)
                (take-all (length source) (drop offset source) (length-drop offset source))
        ]

    -- What is copied is no longer than what there is, and shorter where a call has not copied all.
    copy_from-short :
        (fuel : ℕ) (source : List A) (offset : ℕ)
        → length source < offset + fuel
        → (length (copy_from sendfile fuel block source offset) ≤ length (drop offset source))
          × (length (copy_from sendfile fuel block source offset) ≡ length (drop offset source)
              → all_full sendfile block fuel source offset ≡ true)
    unfolding copy_from
    copy_from-short zero source offset h = (omega arith, λ e. refl)
    copy_from-short (suc fuel) source offset h =
        let d = drop offset source in
        elim (Bool-cases (ltb (offset + block) (length source))) [
          | inl more ↦
              let (sent, le, e) = copies source offset block in
              let here = length-take_mono sent block d le in
              let copied = ap length e in
              let rest = copy_from sendfile fuel block source (offset + block) in
              let (short, full) = copy_from-short fuel source (offset + block) (ground arith) in
              let after = ap length (drop-drop offset block source) in
              let split = length-split block d in
              let joined = length-append (sendfile source offset block) rest in
              (
                ground (arith, more, here, copied, short, after, split, joined),
                λ same. ground (arith, more, here, copied, short, full, after, split, joined, same),
              )
          | inr last ↦
              let (sent, le, e) = copies source offset (length source) in
              let here = length-take_mono sent (length source) d le in
              let copied = ap length e in
              let all_there = ap length (take-all (length source) d (length-drop offset source)) in
              (
                ground (arith, last, here, copied, all_there),
                λ same. ground (arith, last, here, copied, all_there, same),
              )
        ]

  -- For any sendfile that behaves as documented, so that it may copy fewer bytes than it is asked
  -- for, copy_image gives the bytes of its source exactly if each of its calls has copied as many
  -- as it was asked for and there were: it makes no use of what sendfile returns.
  pub copy_image-full :
      (sendfile : Sendfile A) (copies : IsSendfile sendfile) (source : List A)
      → (copy_image sendfile source ≡ source)
        ↔ (all_full sendfile block_size (length source + 1) source 0 ≡ true)
  unfolding copy_image
  copy_image-full sendfile copies source =
      let some_bytes : 0 < block_size = omega arith in
      (
        λ same.
            (copy_from-short sendfile copies block_size some_bytes (length source + 1) source 0
                (omega arith)).1
              (ap length same),
        λ full.
            copy_from-drop sendfile copies block_size some_bytes (length source + 1) source 0
              (omega arith) full,
      )

-- What is written is not seen at another path.
read-write_other :
    (p q : FilePath) (contents : String) (files : Files)
    → same_path p q ≡ false
    → read q (write_to_file p contents files) ≡ read q files
unfolding write_to_file read
read-write_other p q contents files differs =
    ground (arith, differs, read-remove_where (same_path p) q files)

-- If the iso is not there and the URL gives a body, ensure_osimage raises a TypeError and a second
-- call returns with the files as the first left them: the iso holds the body, and at every other
-- path there is what was there before.
pub ensure_osimage-twice :
    (install_dir : FilePath) (iso_name body : String) (files : Files)
    → read (iso_path install_dir iso_name) files ≡ none
    → (reply : Result (Option String))
    → let first = ensure_osimage (ok (some body)) install_dir iso_name files in
      (first.0 ≡ err type_error)
      × (ensure_osimage reply install_dir iso_name first.1 ≡ (ok tt, first.1))
      × (read (iso_path install_dir iso_name) first.1 ≡ some (file body))
      × ((q : FilePath)
          → same_path (iso_path install_dir iso_name) q ≡ false
          → read q first.1 ≡ read q files)
unfolding ensure_osimage fetch_image
ensure_osimage-twice install_dir iso_name body files missing reply =
    let dst = iso_path install_dir iso_name in
    let written = read-write_to_file dst body files in
    (
      ground (arith, missing),
      ground (arith, missing, written),
      ground (arith, missing, written),
      λ q differs. ground (arith, missing, read-write_other dst q body files differs),
    )
