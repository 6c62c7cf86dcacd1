-- ===== src/Hardware/Ddc/CapabilitiesRequest/Reading.antt =====
-- The loop of `readCapabilitiesString`: it reassembles what the display sends a piece at a time.
use desk_control.Common.{
  ℕ, zero, suc, ◌+◌, ◌*◌, ◌<◌, ◌≤◌, false, All, List, [], ◌∷◌, ◌++◌, length, leb, ltb, ◌≡◌, refl,
  ◌∙◌, sym, ap, arith,
}
use mathlib.Core.List.{append-nil, append_assoc}
use desk_control.Hardware.Ddc.{Attempt, ok}
use desk_control.Hardware.Ddc.CapabilitiesRequest.{
  Exchange, append_fragment, read_rounds, read_capabilities_string, build_capabilities_request,
  max_capabilities_length,
}
use desk_control.Hardware.Ddc.CapabilitiesRequest.RoundTrip.{
  fragment_frame, IsPadding, parse_capabilities_fragment-frame,
}

append_empty :
    (next : ℕ → List ℕ → Attempt (List ℕ)) (offset : ℕ) (assembled : List ℕ)
    → append_fragment next offset assembled [] ≡ ok assembled
unfolding append_fragment
append_empty next offset assembled = refl

append_nonempty :
    (next : ℕ → List ℕ → Attempt (List ℕ)) (offset : ℕ) (assembled : List ℕ) (b : ℕ) (bs : List ℕ)
    → length (assembled ++ b ∷ bs) ≤ max_capabilities_length
    → append_fragment next offset assembled (b ∷ bs)
      ≡ next (offset + length (b ∷ bs)) (assembled ++ b ∷ bs)
unfolding append_fragment
append_nonempty next offset assembled b bs fits =
    let grows : leb (offset + length (b ∷ bs)) offset ≡ false = ground arith in
    let under : ltb max_capabilities_length (length (assembled ++ b ∷ bs)) ≡ false = ground arith in
    rw grows (rw under refl)

length-append : (xs ys : List ℕ) → length (xs ++ ys) ≡ length xs + length ys
length-append [] ys = omega arith
length-append (x ∷ xs) ys = omega (arith, length-append xs ys)

-- The pieces put together in order.
unfoldable pub joined : List (List ℕ) → List ℕ
joined [] = []
joined (p ∷ ps) = p ++ joined ps

-- Each piece has 1 to 124 characters.
unfoldable pub IsPiece : List ℕ → Type 0
IsPiece p = (0 < length p) × (length p < 125)

-- The next piece to send; nothing behind the last.
abbrev pub next_piece : List (List ℕ) → List ℕ
next_piece [] = []
next_piece (p ∷ _) = p

-- A display that sends its text in these pieces, whatever their sizes: asked for what lies behind the
-- first of them, it answers with the next one, behind any padding and with any checksum, which may
-- differ from one answer to the next; and with an empty piece behind the last.
pub record Serves (exchange : Exchange) (pieces : List (List ℕ)) : Type 0 where
  pub pad : ℕ → List ℕ
  pub checksum : ℕ → ℕ
  pub padded : (i : ℕ) → IsPadding (pad i)
  pub answers :
      (i : ℕ) (read rest : List (List ℕ))
      → read ++ rest ≡ pieces
      → exchange i (build_capabilities_request (length (joined read)))
        ≡ ok (pad i ++ fragment_frame (length (joined read)) (next_piece rest) (checksum i))

joined-append : (xs ys : List (List ℕ)) → joined (xs ++ ys) ≡ joined xs ++ joined ys
unfolding joined
joined-append [] ys = refl
joined-append (x ∷ xs) ys =
    ap (λ l. x ++ l) (joined-append xs ys) ∙ sym (append_assoc x (joined xs) (joined ys))

joined-snoc : (xs : List (List ℕ)) (p : List ℕ) → joined (xs ++ p ∷ []) ≡ joined xs ++ p
unfolding joined
joined-snoc xs p = joined-append xs (p ∷ []) ∙ ap (λ l. joined xs ++ l) (append-nil p)

next_piece-small : (ps : List (List ℕ)) → All IsPiece ps → length (next_piece ps) < 125
unfolding IsPiece
next_piece-small [] h = omega arith
next_piece-small (p ∷ ps) h = h.0.1

module _ (exchange : Exchange) (pieces : List (List ℕ)) (serves : Serves exchange pieces)
    (long : length (joined pieces) ≤ max_capabilities_length) where
  sizes_lem :
      (read rest : List (List ℕ))
      → read ++ rest ≡ pieces
      → length (joined pieces) ≡ length (joined read) + length (joined rest)
  sizes_lem read rest whole =
      ap (λ l. length (joined l)) (sym whole)
      ∙ (ap (λ (l : List ℕ). length l) (joined-append read rest)
          ∙ length-append (joined read) (joined rest))

  round_lem :
      (rounds i : ℕ) (read rest : List (List ℕ))
      → read ++ rest ≡ pieces
      → All IsPiece rest
      → read_rounds exchange (suc rounds) i (length (joined read)) (joined read)
        ≡ append_fragment
            (read_rounds exchange rounds (i + 1))
            (length (joined read))
            (joined read)
            (next_piece rest)
  unfolding read_rounds
  round_lem rounds i read rest whole fit =
      let in_range : length (joined read) < 65536 = omega (arith, sizes_lem read rest whole) in
      rw
        (
          serves.answers i read rest whole,
          parse_capabilities_fragment-frame (serves.pad i) (length (joined read)) (next_piece rest)
              (serves.checksum i) (serves.padded i) in_range (next_piece-small rest fit),
        )
        refl

  rounds_lem :
      (rounds i : ℕ) (read rest : List (List ℕ))
      → read ++ rest ≡ pieces
      → All IsPiece rest
      → length rest ≤ rounds
      → read_rounds exchange rounds i (length (joined read)) (joined read) ≡ ok (joined pieces)
  unfolding read_rounds IsPiece
  rounds_lem zero i read [] whole fit enough =
      ap (λ l. ok (joined l)) (sym (append-nil read) ∙ whole)
  rounds_lem zero i read (p ∷ ps) whole fit enough = absurd (omega arith)
  rounds_lem (suc rounds) i read [] whole fit enough =
      round_lem rounds i read [] whole fit
      ∙ (append_empty (read_rounds exchange rounds (i + 1)) (length (joined read)) (joined read)
          ∙ ap (λ l. ok (joined l)) (sym (append-nil read) ∙ whole))
  rounds_lem (suc rounds) i read ([] ∷ ps) whole fit enough = absurd (omega (arith, fit.0.0))
  rounds_lem (suc rounds) i read ((b ∷ bs) ∷ ps) whole fit enough =
      let next = read_rounds exchange rounds (i + 1) in
      let more = read ++ (b ∷ bs) ∷ [] in
      let still : more ++ ps ≡ pieces = append_assoc read ((b ∷ bs) ∷ []) ps ∙ whole in
      let longer : joined more ≡ joined read ++ b ∷ bs = joined-snoc read (b ∷ bs) in
      let size = sizes_lem more ps still in
      let got = ap (λ (l : List ℕ). length l) longer in
      round_lem rounds i read ((b ∷ bs) ∷ ps) whole fit
      ∙ (append_nonempty next (length (joined read)) (joined read) b bs (omega (arith, size, got))
          ∙ (ap (λ n. next n (joined read ++ b ∷ bs)) (sym (length-append (joined read) (b ∷ bs)))
              ∙ (ap (λ l. next (length l) l) (sym longer)
                  ∙ rounds_lem rounds (i + 1) more ps still fit.1 (omega arith))))

  -- A text of at most 4096 characters, which the display sends in at most 128 pieces of 1 to 124
  -- characters, each of a size of its own, is read whole: the loop ends and puts the pieces together in
  -- order.
  pub read_capabilities_string-whole :
      All IsPiece pieces
      → length pieces ≤ 128
      → read_capabilities_string exchange ≡ ok (joined pieces)
  unfolding read_capabilities_string joined
  read_capabilities_string-whole fit enough = rounds_lem 128 0 [] pieces refl fit enough

-- A panel that gives one and the same answer to every request.
pub record Repeats (exchange : Exchange) (text : List ℕ) : Type 0 where
  pub offset : ℕ
  pub checksum : ℕ
  pub in_range : offset < 65536
  pub answers :
      (i : ℕ) (request : List ℕ) → exchange i request ≡ ok (fragment_frame offset text checksum)

pub copies : ℕ → List ℕ → List ℕ
copies zero text = []
copies (suc n) text = text ++ copies n text

module _ (exchange : Exchange) (b : ℕ) (bs : List ℕ) (repeats : Repeats exchange (b ∷ bs))
    (short : length (b ∷ bs) < 125) where
  repeated_lem :
      (rounds i offset : ℕ) (read : List ℕ)
      → length read + length (b ∷ bs) * rounds ≤ max_capabilities_length
      → read_rounds exchange rounds i offset read ≡ ok (read ++ copies rounds (b ∷ bs))
  unfolding read_rounds copies
  repeated_lem zero i offset read fits = ap ok (sym (append-nil read))
  repeated_lem (suc rounds) i offset read fits =
      rw
        (
          repeats.answers i (build_capabilities_request offset),
          parse_capabilities_fragment-frame [] repeats.offset (b ∷ bs) repeats.checksum tt
              repeats.in_range short,
        )
        (append_nonempty (read_rounds exchange rounds (i + 1)) offset read b bs
            (omega (arith, length-append read (b ∷ bs)))
          ∙ (repeated_lem rounds (i + 1) (offset + length (b ∷ bs)) (read ++ b ∷ bs)
                (omega (arith, length-append read (b ∷ bs)))
              ∙ ap ok (append_assoc read (b ∷ bs) (copies rounds (b ∷ bs)))))

  -- A panel that answers every request by the same piece of 1 to 32 characters is asked 128 times, and
  -- the piece is put together 128 times: that the answers do not advance is not noticed.
  pub read_capabilities_string-copies :
      length (b ∷ bs) ≤ 32 → read_capabilities_string exchange ≡ ok (copies 128 (b ∷ bs))
  unfolding read_capabilities_string
  read_capabilities_string-copies little = repeated_lem 128 0 0 [] (omega arith)
