-- ===== src/Log/Sink/Laws.antt =====
-- What the sink of maintenance/log/sink.go keeps, and what it passes on.
use mathlib.Core.List.{append-nil, append_assoc}
use bricks.Prelude.{
  ◌||◌, any_of, Bool-cases, inl, inr, ℕ, ◌<◌, ◌≡◌, refl, ap, ◌∙◌, sym, Bool, true, false, List, [],
  ◌∷◌, ◌++◌, Option, some, arith, if◌then◌else◌,
}
use bricks.Prelude.Text.{Text, codes, join, has_prefix}
use bricks.Log.Ring.{new_string_ring, get_content}
use bricks.Log.Ring.Rotation.{last, last_short}
use bricks.Log.Ring.Laws.{Holds, new-Holds, write-Holds, get_content-Holds, get_content_empty}
use bricks.Log.Sink.{
  Sink, SinkOption, Written, default_sink_size, zero_sink, sink_size, apply_options, new_sink,
  silent_from, handler_with_sink, init_once, init_buffer, hand_over, write, write_all, bracketed,
  to_json,
}

-- The sink after the strings `h` were written to it: its ring, made ready, holds them.
pub record Keeps (h : List Text) (s : Sink) : Type 0 where
  pub holds : Holds h (init_once s).ring
  pub idle : s.init_done ≡ false → (h ≡ []) × (s.ring.items ≡ []) × (s.ring.next_pos ≡ 0)

-- The size that the ring has once it is made ready.
abbrev pub ring_size : Sink → ℕ
ring_size s = (init_once s).ring.size

abbrev sent : Sink → List Text → Text → List Text
sent s out b = if s.silent then out else out ++ b ∷ []

init_once_facts : (s : Sink) → ((init_once s).init_done ≡ true) × ((init_once s).silent ≡ s.silent)
unfolding init_once
init_once_facts s = ground arith

init_once_done : (s : Sink) → s.init_done ≡ true → init_once s ≡ s
unfolding init_once
init_once_done s e = rw e

module _ (log_output : Text → ℕ × Option Text) where
  hand_over_facts :
      (s : Sink) (out : List Text) (b : Text)
      → ((hand_over log_output s out b).sink ≡ s)
        × ((hand_over log_output s out b).passed_on ≡ sent s out b)
  unfolding hand_over
  hand_over_facts s out b = ground arith

  write-Keeps :
      (h : List Text) (s : Sink) (out : List Text) (b : Text)
      → Keeps h s
      → (w : Written) × (write log_output s out b ≡ some w)
        × (w.passed_on ≡ sent s out b)
        × (w.sink.silent ≡ s.silent)
        × (ring_size w.sink ≡ ring_size s)
        × Keeps (h ++ b ∷ []) w.sink
  unfolding write
  write-Keeps h s out b k =
      let (ring, e, size, holds) = write-Holds h (init_once s).ring b k.holds in
      let t : Sink = record (init_once s) { ring = ring; has_output = true } in
      let ready : init_once t ≡ t = init_once_done t (init_once_facts s).0 in
      let quiet : t.silent ≡ s.silent = (init_once_facts s).1 in
      let (same, passed) = hand_over_facts t out b in
      (
        hand_over log_output t out b,
        rw e,
        passed ∙ ap (λ q. if q then out else out ++ b ∷ []) quiet,
        ap (λ u. u.silent) same ∙ quiet,
        ap ring_size same ∙ ap (λ u. u.ring.size) ready ∙ size,
        record {
          holds = rw (same, ready) holds;
          idle = λ e. cc (e, ap (λ u. u.init_done) same, (init_once_facts s).0);
        },
      )

  all_sent_nil : (q : Bool) (out : List Text) → out ≡ (if q then out else out ++ [])
  all_sent_nil q out = ground (arith, append-nil out)

  all_sent_cons :
      (q q' : Bool) (out : List Text) (b : Text) (bs : List Text) {o : List Text}
      → q' ≡ q
      → o ≡ (if q then out else out ++ b ∷ [])
      → (if q' then o else o ++ bs) ≡ (if q then out else out ++ b ∷ bs)
  all_sent_cons q q' out b bs e f = ground (arith, append_assoc out (b ∷ []) bs)

  -- What a list of writes passes on to the log output.
  abbrev all_sent : Sink → List Text → List Text → List Text
  all_sent s out bs = if s.silent then out else out ++ bs

  write_all-Keeps :
      (bs h : List Text) (s : Sink) (out : List Text)
      → Keeps h s
      → (t : Sink) × (write_all log_output s out bs ≡ some (t, all_sent s out bs))
        × (ring_size t ≡ ring_size s)
        × Keeps (h ++ bs) t
  unfolding write_all
  write_all-Keeps [] h s out k =
      (s, ap (λ o. some (s, o)) (all_sent_nil s.silent out), refl, rw append-nil k)
  write_all-Keeps (b ∷ bs) h s out k =
      let (w, e, passed, quiet, size, kept) = write-Keeps h s out b k in
      let (t, run, size', kept') = write_all-Keeps bs (h ++ b ∷ []) w.sink w.passed_on kept in
      (
        t,
        rw (e, write_all)
            (run
              ∙ ap (λ o. some (t, o)) (all_sent_cons s.silent w.sink.silent out b bs quiet passed)),
        size' ∙ size,
        rw append_assoc at kept',
      )

init_once_ring : (s : Sink) → 0 < s.ring.size → (init_once s).ring ≡ s.ring
unfolding init_once init_buffer
init_once_ring s h = ground arith

-- What the sink shows.
pub content-Keeps :
    (h : List Text) (s : Sink) → Keeps h s → get_content s.ring ≡ some (last (ring_size s) h)
content-Keeps h s k = elim (Bool-cases s.init_done) [
  | inl ready ↦
      ap (λ u. get_content u.ring) (sym (init_once_done s ready)) ∙ get_content-Holds h _ k.holds
  | inr fresh ↦
      let (none_yet, empty, start) = k.idle fresh in
      rw none_yet (
        get_content_empty s.ring empty start
        ∙ ap some (sym (last_short (ring_size s) [] (omega arith))))
]

sink_size_pos : (s : Sink) → 0 < sink_size s
sink_size_pos s = ground arith

fresh_ring-Keeps : (s : Sink) (n : ℕ) → 0 < n → Keeps [] (record s { ring = new_string_ring n })
unfolding new_string_ring
fresh_ring-Keeps s n p = record {
  holds = rw (init_once_ring (record s { ring = new_string_ring n }) p) (new-Holds n p);
  idle = λ _. (refl, refl, refl);
}

new_sink-Keeps : (opts : List SinkOption) → Keeps [] (new_sink opts)
unfolding new_sink
new_sink-Keeps opts =
    let s = apply_options opts zero_sink in fresh_ring-Keeps s (sink_size s) (sink_size_pos s)

silent_from_lem :
    (ps : List Text) (path : Text) (s : Sink)
    → silent_from ps path s ≡ record s { silent = s.silent || any_of (has_prefix path) ps }
unfolding silent_from
silent_from_lem [] path s = ground arith
silent_from_lem (p ∷ ps) path s =
    ground (arith, silent_from_lem ps path s, silent_from_lem ps path (record s { silent = true }))

new_sink_size : (opts : List SinkOption) → ring_size (new_sink opts) ≡ sink_size (new_sink opts)
unfolding new_sink new_string_ring
new_sink_size opts =
    ap (λ r. r.size) (init_once_ring (new_sink opts) (sink_size_pos (new_sink opts)))

quiet_zero-Keeps : (q : Bool) → Keeps [] (record zero_sink { silent = q })
unfolding init_once init_buffer new_string_ring
quiet_zero-Keeps q = record { holds = new-Holds 1000 (omega arith); idle = λ _. (refl, refl, refl) }

handler_with_sink_lem :
    (prefixes : List Text) (path : Text)
    → handler_with_sink prefixes path
      ≡ record zero_sink { silent = any_of (has_prefix path) prefixes }
unfolding handler_with_sink
handler_with_sink_lem prefixes path = silent_from_lem prefixes path zero_sink

module _ (log_output : Text → ℕ × Option Text) where
  -- What is seen after the writes `bs` on the sink `s`, of which the last `n` are kept.
  pub record Logged (s : Sink) (n : ℕ) (bs : List Text) : Type 0 where
    pub after : Sink
    pub runs : write_all log_output s [] bs ≡ some (after, if s.silent then [] else bs)
    pub shows : get_content after.ring ≡ some (last n bs)
    pub json : to_json after ≡ some (codes "[" ++ (join (last n bs) b',' ++ codes "]"))

  Keeps-Logged : (s : Sink) (bs : List Text) → Keeps [] s → Logged s (ring_size s) bs
  unfolding to_json
  Keeps-Logged s bs k =
      let (t, e, size, kept) = write_all-Keeps log_output bs [] s [] k in
      let shows : get_content t.ring ≡ some (last (ring_size s) bs) =
        content-Keeps bs t kept ∙ ap (λ n. some (last n bs)) size in
      record { after = t; runs = e; shows = shows; json = ap bracketed shows }

  -- The sink of a request: any sequence of writes runs without a panic, the sink then holds the
  -- last 1000 strings written, oldest first, its JSON is the array of these, and the log output has
  -- received all strings in order, or none if the path has one of the silent prefixes.
  pub handler_with_sink-Logged :
      (prefixes : List Text) (path : Text) (bs : List Text)
      → Logged (handler_with_sink prefixes path) default_sink_size bs
        × ((handler_with_sink prefixes path).silent ≡ any_of (has_prefix path) prefixes)
  unfolding init_once init_buffer
  handler_with_sink-Logged prefixes path bs =
      let q = any_of (has_prefix path) prefixes in
      rw (handler_with_sink_lem prefixes path)
        (Keeps-Logged (record zero_sink { silent = q }) bs (quiet_zero-Keeps q), refl)

  -- A sink made by NewSink, with any options: any sequence of writes runs without a panic, and the
  -- sink then holds the last strings written, as many as its size (the custom size if that is
  -- positive, 1000 otherwise); the log output has received all strings, or none if it is silent.
  pub new_sink-Logged :
      (opts : List SinkOption) (bs : List Text)
      → Logged (new_sink opts) (sink_size (new_sink opts)) bs
  new_sink-Logged opts bs = rw (← new_sink_size opts) (Keeps-Logged _ bs (new_sink-Keeps opts))
