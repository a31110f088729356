-- ===== src/Paged/Slice.antt =====
-- Ensure gives the bytes of the file, whatever pages are held.
use libthe_seed.Prelude.{
  ℕ, zero, suc, ◌+◌, ◌-◌, ◌*◌, ◌/◌, ◌≡◌, ◌≤◌, ◌<◌, min, max, refl, ap, ap₂, sym, ◌∙◌, List, [], ◌∷◌,
  ◌++◌, some, leb, ◌==◌, true, length, take, drop, drop-drop, take-drop_add, take-take, length-take,
  length-drop, All, Bool-cases, Option-cases, inl, inr, arith, Returns, value, refusal,
  Returns-bind,
}
use libthe_seed.Bounded.Order.{Bytes}
use libthe_seed.Bounded.Span.{memory}
use libthe_seed.Paged.Cache.{
  page_size, OpenFile, Pages, lookup_page, keep_page, page_of, page, copy_into, join_pages, ensure,
}

-- What a successful read of the file gives: the bytes at that place. The file is `content`.
pub record Holds (file : OpenFile) (content : Bytes) : Type 0 where
  pub size_eq : length content ≡ file.size
  pub reads :
      (start count : ℕ) (bytes : Bytes)
      → file.read_at start count ≡ some bytes
      → bytes ≡ take count (drop start content)

-- The bytes of a page: a full page, or the rest of the file.
abbrev pub IsPage : OpenFile → Bytes → ℕ → Bytes → Type 0
IsPage file content index bytes =
    bytes ≡ take (min page_size (file.size - index * page_size)) (drop (index * page_size) content)

-- Every page held is that page of the file.
abbrev pub IsCoherent : OpenFile → Bytes → Pages → Type 0
IsCoherent file content = All (λ p. IsPage file content p.0 p.1)

drop-take_within {ℓ} :
    {A : Type ℓ} (k f n : ℕ) (xs : List A)
    → f + k ≤ n
    → take k (drop f (take n xs)) ≡ take k (drop f xs)
drop-take_within k zero n xs h = take-take k n xs (omega (arith, h))
drop-take_within k (suc f) zero xs h = absurd (omega (arith, h))
drop-take_within k (suc f) (suc n) [] h = refl
drop-take_within k (suc f) (suc n) (x ∷ xs) h = drop-take_within k f n xs (omega (arith, h))

module _ {file : OpenFile} {content : Bytes} (holds : Holds file content) where
  lookup_page-IsPage :
      (index : ℕ) (pages : Pages) (bytes : Bytes)
      → IsCoherent file content pages
      → lookup_page index pages ≡ some bytes
      → IsPage file content index bytes
  unfolding lookup_page
  lookup_page-IsPage index [] bytes h e = absurd (cc)
  lookup_page-IsPage index ((key, held) ∷ rest) bytes h e = elim (Bool-cases (key == index)) [
    | inl here ↦
        let same : held ≡ bytes = ground arith in
        let at : key ≡ index = ground arith in rw (← same, ← at) h.0
    | inr there ↦ lookup_page-IsPage index rest bytes h.1 (rw there at e)
  ]

  page-Returns :
      (pages : Pages) (index : ℕ)
      → IsCoherent file content pages
      → Returns
          (λ r. IsCoherent file content r.0 × IsPage file content index r.1)
          (page file pages index)
  unfolding page page_of keep_page
  page-Returns pages index h = elim (Option-cases (lookup_page index pages)) [
    | inl missing ↦
        rw missing
          (elim (Option-cases
            (file.read_at (index * page_size) (min page_size (file.size - index * page_size)))) [
              | inl failed ↦ rw failed refusal
              | inr (bytes, got) ↦
                  let new = holds.reads _ _ bytes got in rw got (value ((new, h), new))
            ])
    | inr (bytes, found) ↦ rw found (value (h, lookup_page-IsPage index pages bytes h found))
  ]

  -- A copy out of a page is the copy out of the file.
  page_memory-Returns :
      (index from count : ℕ) (bytes : Bytes)
      → IsPage file content index bytes
      → from + count ≤ page_size
      → index * page_size + from + count ≤ file.size
      → Returns
          (λ part. part ≡ take count (drop (index * page_size + from) content))
          (memory bytes from count)
  unfolding memory
  page_memory-Returns index from count bytes is_page in_page in_file =
      let long : length bytes ≡ min page_size (file.size - index * page_size) =
        ap length is_page
        ∙ omega (
          arith,
          length-take (min page_size (file.size - index * page_size))
              (drop (index * page_size) content),
          length-drop (index * page_size) content,
          holds.size_eq,
        ) in
      let inside : leb (from + count) (length bytes) ≡ true =
        ground (arith, long, in_page, in_file) in
      rw inside (
        value (
          ap (λ b. take count (drop from b)) is_page
          ∙ drop-take_within count from _ (drop (index * page_size) content)
              (omega (arith, in_page, in_file))
          ∙ ap (take count)
              (drop-drop from (index * page_size) (index * page_size + from) content refl)))

copy_into-Returns :
    (count : ℕ) (together part : Bytes)
    → length together + length part ≤ count
    → Returns (λ all. all ≡ together ++ part) (copy_into count together part)
unfolding copy_into
copy_into-Returns count together part fits =
    let inside : leb (length together + length part) count ≡ true = ground (arith, fits) in
    rw inside (value refl)

module _ {file : OpenFile} {content : Bytes} (holds : Holds file content) (offset count : ℕ) where
  slice_length : (n : ℕ) → offset + n ≤ file.size → length (take n (drop offset content)) ≡ n
  slice_length n inside =
      omega (arith, length-take n (drop offset content), length-drop offset content, holds.size_eq)

  -- `done` bytes are joined when the loop comes to page `index`; `last` is the page of the last
  -- byte.
  join_pages-Returns :
      (last index left done : ℕ) (pages : Pages) (together : Bytes)
      → offset + count ≤ file.size
      → last * page_size < offset + count
      → offset + count ≤ last * page_size + page_size
      → index + left ≡ last + 1
      → offset < index * page_size + page_size
      → offset + done ≡ min (offset + count) (max offset (index * page_size))
      → together ≡ take done (drop offset content)
      → IsCoherent file content pages
      → Returns
          (λ r. IsCoherent file content r.0 × (r.1 ≡ take count (drop offset content)))
          (join_pages file offset count index left pages together)
  unfolding join_pages
  join_pages-Returns last index zero done pages together inside from_last to_last here near d e h =
      let all : done ≡ count = omega (arith, from_last, to_last, here, d) in value (h, rw (← all) e)
  join_pages-Returns last index (suc left) done pages together inside from_last to_last here near d
        e h =
      let start = index * page_size in
      let from = max offset start - start in
      let step = min (offset + count) (start + page_size) - start - from in
      let start_in : start < offset + count = omega (arith, from_last, here) in
      let place : start + from ≡ offset + done = omega (arith, start_in, d) in
      let reach : done + step ≤ count = omega (arith, start_in, near, d) in
      Returns-bind _ (page-Returns holds pages index h) λ (held, bytes) (coherent, is_page).
        Returns-bind _
          (page_memory-Returns holds index from step bytes is_page (omega (arith, start_in, near))
            (omega (arith, start_in, near, inside)))
          λ part is_part.
            let sized : length part ≡ step =
              ap length is_part
              ∙ omega (
                arith,
                length-take step (drop (start + from) content),
                length-drop (start + from) content,
                holds.size_eq,
                reach,
                place,
                inside,
              ) in
            let rest : part ≡ take step (drop done (drop offset content)) =
              is_part
              ∙ ap (λ k. take step (drop k content)) place
              ∙ ap (take step) (sym (drop-drop done offset (offset + done) content refl)) in
            Returns-bind _
              (copy_into-Returns count together part (
                omega (
                  arith,
                  ap length e,
                  slice_length done (omega (arith, reach, inside)),
                  sized,
                  reach,
                )))
              λ more joined.
                join_pages-Returns last (index + 1) left (done + step) held more inside from_last
                  to_last (omega (arith, here)) (omega (arith, near))
                  (omega (arith, start_in, near, d, place))
                  (joined
                    ∙ ap₂ (◌++◌) e rest
                    ∙ take-drop_add done step (done + step) (drop offset content) refl)
                  coherent

  -- For a file whose successful reads give its bytes, and pages that are those of the file, Ensure
  -- at a range inside the file ends without touching memory outside a page or its own buffer, and
  -- gives the bytes of the file in that range; the pages held stay those of the file.
  pub ensure-Returns :
      (pages : Pages)
      → offset + count ≤ file.size
      → IsCoherent file content pages
      → Returns
          (λ r. IsCoherent file content r.0 × (r.1 ≡ take count (drop offset content)))
          (ensure file offset count pages)
  unfolding ensure
  ensure-Returns pages inside h = elim (Bool-cases (count == 0)) [
    | inl nothing ↦
        let zero_count : count ≡ 0 = ground (arith, nothing) in
        rw nothing (value (h, rw zero_count refl))
    | inr something ↦
        let filled : 0 < count = ground (arith, something) in
        let first = offset / page_size in
        let last = (offset + count - 1) / page_size in
        rw something (elim (Bool-cases (first == last)) [
          | inl one ↦
              let same : first ≡ last = ground (arith, one) in
              rw one (
                Returns-bind _ (page-Returns holds pages first h)
                  λ (held, bytes) (coherent, is_page).
                    Returns-bind _
                      (page_memory-Returns holds first (offset - first * page_size) count bytes
                        is_page (omega (arith, same, filled)) (omega (arith, inside)))
                      λ part is_part.
                        value
                          (coherent, is_part ∙ ap (λ k. take count (drop k content)) (omega arith)))
          | inr several ↦ rw several (
              join_pages-Returns last first (last - first + 1) 0 pages [] inside
                (omega (arith, filled)) (omega (arith, filled)) (omega (arith, filled))
                (omega arith) (omega (arith, filled)) refl h)
        ])
  ]
