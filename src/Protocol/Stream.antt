-- ===== src/Protocol/Stream.antt =====
-- The reader does not depend on how the bytes are cut into pieces.
use mathlib.Core.List.{append_assoc}
use one_open_broker.Prelude.{
  ℕ, zero, suc, ◌<◌, ◌≡◌, ◌≢◌, ◌∙◌, refl, sym, ap, Option, none, some, List, [], ◌∷◌, ◌++◌, length,
  arith, length-append, Option-cases, inl, inr, ◌⊎◌,
}
use one_open_broker.Core.Message.{Bytes}
use one_open_broker.Protocol.Frames.{Frame, Decoded, ErrorCode, ok, fail}
use one_open_broker.Protocol.Reader.{
  FrameReader, Attempt, wait, cut, raise, try_one, feed_fuel, feed,
}
use one_open_broker.Protocol.Extend.{extend, try_one-append, try_one_shortens}

-- Frames that were read earlier in the same call.
abbrev pub read_before :
    List Frame
    → FrameReader × Option (Decoded (List Frame))
    → FrameReader × Option (Decoded (List Frame))
read_before fs (r, none) = (r, none)
read_before fs (r, some (fail code)) = (r, some (fail code))
read_before fs (r, some (ok gs)) = (r, some (ok (fs ++ gs)))

cut≢wait : (f : Frame) (rest : Bytes) → cut f rest ≢ wait
cut≢wait f rest h = cc

fail≢ok :
    (code : ErrorCode) (fs : List Frame)
    → ◌≢◌ {A = Option (Decoded (List Frame))} (some (fail code)) (some (ok fs))
fail≢ok code fs h = cc

Attempt-cases :
    (a : Attempt)
    → (a ≡ wait)
      ⊎ ((f : Frame) × (rest : Bytes) × (a ≡ cut f rest))
      ⊎ ((code : ErrorCode) × (rest : Bytes) × (a ≡ raise code rest))
Attempt-cases wait = inl refl
Attempt-cases (cut f rest) = inr (inl (f, rest, refl))
Attempt-cases (raise code rest) = inr (inr (code, rest, refl))

read_before-nil : (x : FrameReader × Option (Decoded (List Frame))) → read_before [] x ≡ x
read_before-nil (r, none) = refl
read_before-nil (r, some (fail code)) = refl
read_before-nil (r, some (ok gs)) = refl

read_before-cons :
    (f : Frame) (fs : List Frame) (x : FrameReader × Option (Decoded (List Frame)))
    → read_before (f ∷ []) (read_before fs x) ≡ read_before (f ∷ fs) x
read_before-cons f fs (r, none) = refl
read_before-cons f fs (r, some (fail code)) = refl
read_before-cons f fs (r, some (ok gs)) = refl

read_before-ok :
    (f : Frame) (x : FrameReader × Option (Decoded (List Frame))) (r : FrameReader)
    (fs : List Frame)
    → read_before (f ∷ []) x ≡ (r, some (ok fs))
    → (gs : List Frame) × (x ≡ (r, some (ok gs))) × (fs ≡ f ∷ gs)
read_before-ok f (q, none) r fs h =
    absurd (cc (ap (λ (y : FrameReader × Option (Decoded (List Frame))). y.1) h))
read_before-ok f (q, some (fail code)) r fs h =
    absurd (cc (ap (λ (y : FrameReader × Option (Decoded (List Frame))). y.1) h))
read_before-ok f (q, some (ok gs)) r fs h = (gs, ground arith, ground arith)

read_before-ne_none :
    (f : Frame) (x : FrameReader × Option (Decoded (List Frame)))
    → x.1 ≢ none
    → (read_before (f ∷ []) x).1 ≢ none
read_before-ne_none f (q, none) n = n
read_before-ne_none f (q, some (fail code)) n = λ e. cc
read_before-ne_none f (q, some (ok gs)) n = λ e. cc

cut-read_before :
    (f : Frame) (x : FrameReader × Option (Decoded (List Frame)))
    → (
      x.0,
      elim x.1 [
        | none ↦ none
        | some (fail code) ↦ some (fail code)
        | some (ok fs) ↦ some (ok (f ∷ fs))
      ],
    )
      ≡ read_before (f ∷ []) x
cut-read_before f (q, none) = refl
cut-read_before f (q, some (fail code)) = refl
cut-read_before f (q, some (ok gs)) = refl

module _ (crc32 : Bytes → ℕ) where
  feed_wait :
      (fuel : ℕ) (r : FrameReader)
      → try_one crc32 r.max_frame_size r.buffer ≡ wait
      → feed_fuel crc32 (suc fuel) r ≡ (r, some (ok []))
  unfolding feed_fuel
  feed_wait fuel r e = rw (e, feed_fuel) refl

  feed_cut :
      (fuel : ℕ) (r : FrameReader) (f : Frame) (rest : Bytes)
      → try_one crc32 r.max_frame_size r.buffer ≡ cut f rest
      → feed_fuel crc32 (suc fuel) r
        ≡ read_before (f ∷ []) (feed_fuel crc32 fuel (record r { buffer = rest }))
  unfolding feed_fuel
  feed_cut fuel r f rest e =
      rw (e, feed_fuel) (cut-read_before f (feed_fuel crc32 fuel (record r { buffer = rest })))

  feed_raise :
      (fuel : ℕ) (r : FrameReader) (code : ErrorCode) (rest : Bytes)
      → try_one crc32 r.max_frame_size r.buffer ≡ raise code rest
      → feed_fuel crc32 (suc fuel) r
        ≡ (record r { buffer = rest; closed_error = some code }, some (fail code))
  unfolding feed_fuel
  feed_raise fuel r code rest e = rw (e, feed_fuel) refl

  -- Fuel above the length of the buffer is enough, and more of it changes nothing.
  feed_fuel_enough :
      (n k : ℕ) (r : FrameReader)
      → length r.buffer < n
      → length r.buffer < k
      → (feed_fuel crc32 n r ≡ feed_fuel crc32 k r) × ((feed_fuel crc32 n r).1 ≢ none)
  feed_fuel_enough zero k r h g = absurd (omega arith)
  feed_fuel_enough (suc n) zero r h g = absurd (omega arith)
  feed_fuel_enough (suc n) (suc k) r h g =
      elim (Attempt-cases (try_one crc32 r.max_frame_size r.buffer)) [
        | inl e ↦ rw (feed_wait n r e, feed_wait k r e) (refl, λ x. cc)
        | inr (inl (f, rest, e)) ↦
            let shorter = try_one_shortens crc32 r.max_frame_size r.buffer rest f e in
            let (same, answers) =
              feed_fuel_enough n k (record r { buffer = rest }) (omega arith) (omega arith) in
            rw (feed_cut n r f rest e, feed_cut k r f rest e)
              (ap (read_before (f ∷ [])) same, read_before-ne_none f _ answers)
        | inr (inr (code, rest, e)) ↦
            rw (feed_raise n r code rest e, feed_raise k r code rest e) (refl, λ x. cc)
      ]

  -- `feed` always answers: its loop ends before the fuel does.
  pub feed_answers : (bytes : Bytes) (r : FrameReader) → (feed crc32 bytes r).1 ≢ none
  unfolding feed
  feed_answers bytes r = elim (Option-cases r.closed_error) [
    | inr (code, e) ↦ rw (e, feed) (λ x. cc)
    | inl e ↦
        rw (e, feed)
          (feed_fuel_enough (suc (length (r.buffer ++ bytes))) (suc (length (r.buffer ++ bytes)))
            (record r { buffer = r.buffer ++ bytes }) (omega arith) (omega arith)).1
  ]

  feed_open :
      (bytes : Bytes) (r : FrameReader)
      → r.closed_error ≡ none
      → feed crc32 bytes r
        ≡ feed_fuel crc32
            (suc (length (r.buffer ++ bytes)))
            (record r { buffer = r.buffer ++ bytes })
  unfolding feed
  feed_open bytes r e =
      ap
        (λ (c : Option ErrorCode). elim c as (λ x. FrameReader × Option (Decoded (List Frame))) [
          | some code ↦ (r, some (fail code))
          | none ↦
              feed_fuel crc32 (suc (length (r.buffer ++ bytes)))
                (record r { buffer = r.buffer ++ bytes })
        ])
        e

  raised-ok :
      (n : ℕ) (r : FrameReader) (code : ErrorCode) (rest : Bytes)
      → try_one crc32 r.max_frame_size r.buffer ≡ raise code rest
      → (r' : FrameReader) (fs : List Frame) → feed_fuel crc32 (suc n) r ≢ (r', some (ok fs))
  raised-ok n r code rest e r' fs h = fail≢ok code fs (
      ap (λ (y : FrameReader × Option (Decoded (List Frame))). y.1)
        (sym (feed_raise n r code rest e) ∙ h))

  feed_fuel-append :
      (more : Bytes) (n k l : ℕ) (r r' : FrameReader) (fs : List Frame)
      → feed_fuel crc32 n r ≡ (r', some (ok fs))
      → length (r.buffer ++ more) < k
      → length (r'.buffer ++ more) < l
      → (feed_fuel crc32 k (record r { buffer = r.buffer ++ more })
          ≡ read_before fs (feed_fuel crc32 l (record r' { buffer = r'.buffer ++ more })))
        × (r'.closed_error ≡ r.closed_error)
  feed_fuel-append more zero k l r r' fs h hk hl =
      unfold feed_fuel in
      absurd (cc (ap (λ (y : FrameReader × Option (Decoded (List Frame))). y.1) h))
  feed_fuel-append more (suc n) zero l r r' fs h hk hl = absurd (omega arith)
  feed_fuel-append more (suc n) (suc k) l r r' fs h hk hl =
      elim (Attempt-cases (try_one crc32 r.max_frame_size r.buffer)) [
        | inl e ↦
            let same : (r, some (ok [])) ≡ (r', some (ok fs)) = sym (feed_wait n r e) ∙ h in
            let whole : r' ≡ r = cc same in
            let none_yet : fs ≡ [] = ground (arith, same) in
            rw (whole, none_yet)
              (
                (feed_fuel_enough (suc k) l (record r { buffer = r.buffer ++ more }) (omega arith)
                      (rw (ap (λ (q : FrameReader). q.buffer) (sym whole)) hl)).0
                    ∙ sym (
                        read_before-nil
                          (feed_fuel crc32 l (record r { buffer = r.buffer ++ more }))),
                refl,
              )
        | inr (inl (f, rest, e)) ↦
            let shorter = try_one_shortens crc32 r.max_frame_size r.buffer rest f e in
            let later = feed_fuel crc32 l (record r' { buffer = r'.buffer ++ more }) in
            let (gs, inner, split) =
              read_before-ok f (feed_fuel crc32 n (record r { buffer = rest })) r' fs
                (sym (feed_cut n r f rest e) ∙ h) in
            let busy : try_one crc32 r.max_frame_size r.buffer ≢ wait =
              λ x. cut≢wait f rest (sym e ∙ x) in
            let longer : try_one crc32 r.max_frame_size (r.buffer ++ more) ≡ cut f (rest ++ more) =
              try_one-append crc32 r.max_frame_size r.buffer more busy ∙ ap (extend more) e in
            let (ih, open_still) =
              feed_fuel-append more n k l (record r { buffer = rest }) r' gs inner
                (omega (arith, length-append rest more, length-append r.buffer more)) hl in
            (
              feed_cut k (record r { buffer = r.buffer ++ more }) f (rest ++ more) longer
                  ∙ ap (read_before (f ∷ [])) ih
                  ∙ read_before-cons f gs later
                  ∙ ap (λ (x : List Frame). read_before x later) (sym split),
              open_still,
            )
        | inr (inr (code, rest, e)) ↦ absurd (raised-ok n r code rest e r' fs h)
      ]

  -- An open reader that is fed two pieces, the first without an error, gives the frames of the
  -- first, then those of the second, and ends as a reader that is fed both pieces at once.
  pub feed-append :
      (a b : Bytes) (r r' : FrameReader) (fs : List Frame)
      → r.closed_error ≡ none
      → feed crc32 a r ≡ (r', some (ok fs))
      → feed crc32 (a ++ b) r ≡ read_before fs (feed crc32 b r')
  unfolding feed
  feed-append a b r r' fs is_open h =
      let first : feed_fuel crc32 (suc (length (r.buffer ++ a)))
            (record r { buffer = r.buffer ++ a })
          ≡ (r', some (ok fs)) =
        rw (sym (feed_open a r is_open)) h in
      let (same, open_still) =
        feed_fuel-append b (suc (length (r.buffer ++ a))) (suc (length ((r.buffer ++ a) ++ b)))
          (suc (length (r'.buffer ++ b))) (record r { buffer = r.buffer ++ a }) r' fs first
          (omega arith) (omega arith) in
      feed_open (a ++ b) r is_open
      ∙ rw (sym (append_assoc r.buffer a b)) same
      ∙ ap (read_before fs) (sym (feed_open b r' (open_still ∙ is_open)))
