-- ===== src/Networking/Client/Queue.antt =====
-- The send queue of networking/tcp_client.py: what `send_json` puts in, and what `_drain_send_queue_once`
-- writes, in which order and with what loss.
use mathlib.Core.List.{append-nil, append_assoc}
use distributed_sensor_hub.Base.{
  ℕ, ◌≤◌, ◌≡◌, refl, sym, ap, ◌∙◌, Bool, true, false, List, [], ◌∷◌, ◌++◌, arith, ltb,
}
use distributed_sensor_hub.Base.Lists.{length, take}
use distributed_sensor_hub.Networking.Client.{Sent, done, broken, halt, drain}
use distributed_sensor_hub.Networking.Framing.{frame}
use distributed_sensor_hub.Networking.Server.Frames.{frames, Fit}
use distributed_sensor_hub.Value.Key.{key_eq}

-- Part of one frame, cut off by a failure, or nothing.
abbrev pub Torn : List (List ℕ) → List ℕ → Type 0
Torn [] partial = partial ≡ []
Torn (p ∷ ps) partial = (ps ≡ []) × ((n : ℕ) × (partial ≡ take n (frame p)))

-- What a call of `drain` did to a queue: it wrote the frames of the first payloads, in order, and then
-- perhaps a part of one more, which is lost; the others are still queued.
pub record Drained (queue : List (List ℕ)) (wire : List ℕ) (r : List (List ℕ) × List ℕ × Bool)
    : Type 0 where
  pub sent : List (List ℕ)
  pub lost : List (List ℕ)
  pub partial : List ℕ
  pub order : queue ≡ sent ++ (lost ++ r.0)
  pub written : r.1 ≡ wire ++ (frames sent ++ partial)
  pub torn : Torn lost partial
  pub clean : r.2 ≡ true → lost ≡ []

drain_nothing : (queue : List (List ℕ)) (wire : List ℕ) → Drained queue wire (queue, wire, true)
unfolding frames
drain_nothing queue wire = record {
  sent = [];
  lost = [];
  partial = [];
  order = refl;
  written = sym (append-nil wire);
  torn = refl;
  clean = λ _. refl;
}

Drained-cons :
    (p : List ℕ) (queue : List (List ℕ)) (wire : List ℕ) (r : List (List ℕ) × List ℕ × Bool)
    → Drained queue (wire ++ frame p) r
    → Drained (p ∷ queue) wire r
unfolding frames
Drained-cons p queue wire r d = record {
  sent = p ∷ d.sent;
  lost = d.lost;
  partial = d.partial;
  order = ap (◌∷◌ p) d.order;
  written =
      d.written
      ∙ append_assoc wire (frame p) _
      ∙ ap (◌++◌ wire) (sym (append_assoc (frame p) (frames d.sent) d.partial));
  torn = d.torn;
  clean = d.clean;
}

fits_false : (a b : ℕ) → a ≤ b → ltb b a ≡ false
fits_false a b h = ground arith

-- Whatever each `sendall` meets, if no queued payload is over the size limit, one call writes the whole
-- frames of the first payloads, in order, behind what was on the wire; of the next payload it
-- may lose a torn frame, but not if it answers that the connection holds; all others stay queued.
pub drain-Drained :
    (max_frame_size : ℕ) (queue : List (List ℕ)) (sends : List Sent) (wire : List ℕ)
    → Fit max_frame_size queue
    → Drained queue wire (drain max_frame_size queue sends wire)
unfolding drain
drain-Drained m [] sends wire fit = drain_nothing [] wire
drain-Drained m (p ∷ queue) (halt ∷ sends) wire fit = drain_nothing (p ∷ queue) wire
drain-Drained m (p ∷ queue) (broken n ∷ sends) wire (small, fit) =
    rw (fits_false (length p) m small, drain)
      (unfold frames in
        record {
          sent = [];
          lost = p ∷ [];
          partial = take n (frame p);
          order = refl;
          written = refl;
          torn = (refl, (n, refl));
          clean = λ e. absurd (cc);
        })
drain-Drained m (p ∷ queue) (done ∷ sends) wire (small, fit) =
    rw (fits_false (length p) m small, drain)
      (Drained-cons p queue wire _ (drain-Drained m queue sends (wire ++ frame p) fit))
drain-Drained m (p ∷ queue) [] wire (small, fit) =
    rw (fits_false (length p) m small, drain)
      (Drained-cons p queue wire _ (drain-Drained m queue [] (wire ++ frame p) fit))

-- Where every call of `sendall` succeeds the whole queue is written, in order.
pub drain_all :
    (max_frame_size : ℕ) (queue : List (List ℕ)) (wire : List ℕ)
    → Fit max_frame_size queue
    → drain max_frame_size queue [] wire ≡ ([], wire ++ frames queue, true)
unfolding drain frames
drain_all m [] wire fit = ap (λ w. ([], w, true)) (sym (append-nil wire))
drain_all m (p ∷ queue) wire (small, fit) =
    rw (fits_false (length p) m small, drain)
      (drain_all m queue (wire ++ frame p) fit
        ∙ ap (λ w. ([], w, true)) (append_assoc wire (frame p) (frames queue)))
