-- ===== src/Blaster/Template/Fresh.antt =====
-- What `randomize_dcid` writes, and that the authenticator's parser finds it.
use pktauth.Base.{ℕ, ◌-◌, ◌≤◌, List, [], ◌∷◌, ◌++◌, ◌≡◌, refl, ap, ◌∙◌, sym, arith}
use pktauth.Base.{done, some, copy_from_slice, copy_from_slice-append, append-nil}
use pktauth.Base.{
  take_all, length, take, drop, slice, slice-some, slice-append, length-take, length-drop,
}
use pktauth.Base.{length-append, drop-append}
use pktauth.Base.Chunks.{chunks, chunks_fuel, chunks_fuel-suc, chunks_fuel-empty, concat}
use pktauth.Auth.Cid.{destination_cid}
use pktauth.Auth.Cid.Format.{destination_cid-long}
use pktauth.Blaster.Rng.{SplitMix64, next}
use pktauth.Blaster.Template.{InitialTemplate, fill_chunks, randomize_dcid}
use pktauth.Blaster.Template.Outcome.{IsInitial, trailer}

-- The parser finds the connection ID of an Initial.
IsInitial-destination_cid :
    (size : ℕ) (dcid : List ℕ) (template : InitialTemplate)
    → IsInitial size dcid template
    → destination_cid template.bytes ≡ some dcid
IsInitial-destination_cid size dcid template t =
    ap destination_cid t.layout
    ∙ ap (λ n. destination_cid (0xc3 ∷ 0 ∷ 0 ∷ 0 ∷ 1 ∷ n ∷ (dcid ++ trailer size)))
        (sym t.size_dcid)
    ∙ destination_cid-long 0xc3 (0 ∷ 0 ∷ 0 ∷ 1 ∷ []) dcid (trailer size) (omega arith) (omega arith)
        refl (omega (arith, t.size_dcid))

-- Three runs of at most eight elements.
three_chunks :
    (xs : List ℕ)
    → length xs ≡ 20
    → chunks 8 xs ≡ done (take 8 xs ∷ take 8 (drop 8 xs) ∷ take 8 (drop 8 (drop 8 xs)) ∷ [])
unfolding chunks
three_chunks xs h =
    let second : length (drop 8 xs) ≡ 12 = omega (arith, length-drop 8 xs) in
    let third : length (drop 8 (drop 8 xs)) ≡ 4 = omega (arith, length-drop 8 (drop 8 xs)) in
    let none_left : length (drop 8 (drop 8 (drop 8 xs))) ≡ 0 =
      omega (arith, length-drop 8 (drop 8 (drop 8 xs))) in
    ap (λ n. done (chunks_fuel n 8 xs)) h
    ∙ ap done (
        chunks_fuel-suc 19 8 xs (omega arith)
        ∙ ap (λ t. take 8 xs ∷ t)
            (chunks_fuel-suc 18 8 (drop 8 xs) (omega arith)
              ∙ ap (λ t. take 8 (drop 8 xs) ∷ t)
                  (chunks_fuel-suc 17 8 (drop 8 (drop 8 xs)) (omega arith)
                    ∙ ap (λ t. take 8 (drop 8 (drop 8 xs)) ∷ t)
                        (chunks_fuel-empty 17 8 (drop 8 (drop 8 (drop 8 xs))) none_left))))

-- A copy that fills all of a list.
copy_all :
    (xs src : List ℕ) (n : ℕ)
    → length xs ≡ n
    → length src ≡ n
    → copy_from_slice xs 0 n src ≡ done src
copy_all xs src n h e =
    ap (λ t. copy_from_slice t 0 n src) (sym (append-nil xs))
    ∙ copy_from_slice-append [] xs [] src 0 n refl (omega arith) (omega arith)
    ∙ ap done (append-nil src)

slice_front : (xs : List ℕ) (n : ℕ) → n ≤ length xs → slice xs 0 n ≡ some (take n xs)
slice_front xs n h =
    let whole : n - 0 ≡ n = omega arith in
    slice-some xs 0 n (omega arith) h ∙ ap (λ k. some (take k xs)) whole

-- The connection ID that a generator gives next: two words and the first half of a third.
abbrev pub fresh_cid : (ℕ → List ℕ) → SplitMix64 → List ℕ
fresh_cid to_ne_bytes rng =
    let (first, rng') = next rng in
    let (second, rng'') = next rng' in
    to_ne_bytes first ++ (to_ne_bytes second ++ take 4 (to_ne_bytes (next rng'').0))

module _ (to_ne_bytes : ℕ → List ℕ)
    (length-to_ne_bytes : (w : ℕ) → length (to_ne_bytes w) ≡ 8) where
  fill_chunks-cons :
      (chunk : List ℕ) (rest : List (List ℕ)) (rng : SplitMix64) {filled : List (List ℕ)}
      {rng' : SplitMix64}
      → length chunk ≤ 8
      → fill_chunks to_ne_bytes rest (next rng).1 ≡ done (filled, rng')
      → fill_chunks to_ne_bytes (chunk ∷ rest) rng
        ≡ done (take (length chunk) (to_ne_bytes (next rng).0) ∷ filled, rng')
  unfolding fill_chunks
  fill_chunks-cons chunk rest rng h e =
      let word = to_ne_bytes (next rng).0 in
      let eight : length word ≡ 8 = length-to_ne_bytes (next rng).0 in
      let front : slice word 0 (length chunk) ≡ some (take (length chunk) word) =
        slice_front word (length chunk) (omega arith) in
      let copied : copy_from_slice chunk 0 (length chunk) (take (length chunk) word)
          ≡ done (take (length chunk) word) =
        copy_all chunk (take (length chunk) word) (length chunk) refl
          (omega (arith, length-take (length chunk) word)) in
      rw (front, copied, e) refl

  -- The three chunks of a connection ID.
  fill_chunks-three :
      (xs ys zs : List ℕ) (rng : SplitMix64)
      → length xs ≡ 8
      → length ys ≡ 8
      → length zs ≡ 4
      → (filled : List (List ℕ)) × (rng' : SplitMix64) × (fill_chunks to_ne_bytes
            (xs ∷ ys ∷ zs ∷ [])
            rng
          ≡ done (filled, rng'))
        × (concat filled ≡ fresh_cid to_ne_bytes rng)
        × (rng' ≡ (next (next (next rng).1).1).1)
  unfolding fill_chunks
  fill_chunks-three xs ys zs rng hx hy hz = (
    take (length xs) first ∷ take (length ys) second ∷ take (length zs) third ∷ [],
    (next (next (next rng).1).1).1,
    fill_chunks-cons xs (ys ∷ zs ∷ []) rng (omega arith) (
        fill_chunks-cons ys (zs ∷ []) (next rng).1 (omega arith)
          (fill_chunks-cons zs [] (next (next rng).1).1 (omega arith) nothing_left)),
    rw
        (
          hx,
          hy,
          hz,
          take_all first 8 (length-to_ne_bytes _),
          take_all second 8 (length-to_ne_bytes _),
        )
        (ap (λ t. first ++ (second ++ t)) (append-nil (take 4 third))),
    refl,
  )
    where
      first : List ℕ
      first = to_ne_bytes (next rng).0

      second : List ℕ
      second = to_ne_bytes (next (next rng).1).0

      third : List ℕ
      third = to_ne_bytes (next (next (next rng).1).1).0

      nothing_left :
          fill_chunks to_ne_bytes [] (next (next (next rng).1).1).1
          ≡ done ([], (next (next (next rng).1).1).1)
      nothing_left = refl

  length-fresh_cid : (rng : SplitMix64) → length (fresh_cid to_ne_bytes rng) ≡ 20
  length-fresh_cid rng = omega (
    arith,
    length-append first (second ++ take 4 third),
    length-append second (take 4 third),
    length-take 4 third,
    length-to_ne_bytes (next rng).0,
    length-to_ne_bytes (next (next rng).1).0,
    length-to_ne_bytes (next (next (next rng).1).1).0,
  )
    where
      first : List ℕ
      first = to_ne_bytes (next rng).0

      second : List ℕ
      second = to_ne_bytes (next (next rng).1).0

      third : List ℕ
      third = to_ne_bytes (next (next (next rng).1).1).0

  -- An Initial with another connection ID of the same length.
  IsInitial-with :
      (size : ℕ) (dcid cid : List ℕ) (template : InitialTemplate)
      → IsInitial size dcid template
      → length cid ≡ 20
      → IsInitial size cid
          (record template { bytes = take 6 template.bytes ++ (cid ++ drop 26 template.bytes) })
  IsInitial-with size dcid cid template t c = record {
    offset = t.offset;
    size_dcid = c;
    size_bytes = omega (
      arith,
      length-append (take 6 template.bytes) (cid ++ drop 26 template.bytes),
      length-append cid (drop 26 template.bytes),
      length-take 6 template.bytes,
      length-drop 26 template.bytes,
      ap length t.layout,
      length-append dcid (trailer size),
      t.size_bytes,
      t.size_dcid,
    );
    layout = rw (t.layout, drop-append dcid (trailer size) 20 t.size_dcid) refl;
  }

  -- What one draw over a template leaves: the template, the generator, and what the parser finds.
  pub record Redrawn (size : ℕ) (template : InitialTemplate) (rng : SplitMix64) : Type 0 where
    pub redrawn : InitialTemplate
    pub returned :
        randomize_dcid to_ne_bytes template rng ≡ done (redrawn, (next (next (next rng).1).1).1)
    pub kept : IsInitial size (fresh_cid to_ne_bytes rng) redrawn
    pub found : destination_cid redrawn.bytes ≡ some (fresh_cid to_ne_bytes rng)

  -- On an Initial of any size, `randomize_dcid` never panics. It takes three words, writes them as
  -- the new connection ID and nothing else, and `destination_cid` finds exactly those bytes. The
  -- words' bytes are eight each, in either order.
  pub randomize_dcid-Redrawn :
      (size : ℕ) (dcid : List ℕ) (template : InitialTemplate) (rng : SplitMix64)
      → IsInitial size dcid template
      → Redrawn size template rng
  unfolding randomize_dcid
  randomize_dcid-Redrawn size dcid template rng t =
      let (filled, rng', e, same, last) =
        fill_chunks-three (take 8 dcid) (take 8 (drop 8 dcid)) (take 8 (drop 8 (drop 8 dcid))) rng
          (omega (arith, length-take 8 dcid, t.size_dcid))
          (omega (arith, length-take 8 (drop 8 dcid), length-drop 8 dcid, t.size_dcid))
          (omega (
            arith,
            length-take 8 (drop 8 (drop 8 dcid)),
            length-drop 8 (drop 8 dcid),
            length-drop 8 dcid,
            t.size_dcid,
          )) in
      let at_six : slice template.bytes 6 26 ≡ some dcid = rw t.layout (
        slice-append (0xc3 ∷ 0 ∷ 0 ∷ 0 ∷ 1 ∷ 20 ∷ []) dcid (trailer size) 6 26 refl
          (omega (arith, t.size_dcid))) in
      let kept =
        IsInitial-with size dcid (fresh_cid to_ne_bytes rng) template t (length-fresh_cid rng) in
      record {
        redrawn = record template {
          bytes = take 6 template.bytes ++ (fresh_cid to_ne_bytes rng ++ drop 26 template.bytes);
        };
        returned = rw (t.offset, at_six, three_chunks dcid t.size_dcid, e, same, last) refl;
        kept = kept;
        found = IsInitial-destination_cid size (fresh_cid to_ne_bytes rng) _ kept;
      }
