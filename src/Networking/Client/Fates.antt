-- ===== src/Networking/Client/Fates.antt =====
-- What becomes of the payloads that leave the send queue of networking/tcp_client.py: each is written whole or
-- torn by a failed send.
use mathlib.Core.List.{append-nil, append_assoc}
use distributed_sensor_hub.Base.{
  ℕ, suc, ◌+◌, ◌≤◌, ◌≡◌, refl, sym, ap, ◌∙◌, false, List, [], ◌∷◌, ◌++◌, map, arith, ltb,
}
use distributed_sensor_hub.Base.Lists.{length, take}
use distributed_sensor_hub.Networking.Client.{Sent, done, broken, halt, drain}
use distributed_sensor_hub.Networking.Framing.{frame}
use distributed_sensor_hub.Networking.Server.Frames.{Fit}

-- A payload that left the queue was written whole, or torn after some bytes.
pub data Fate : Type 0 where
  whole : List ℕ → Fate
  torn : ℕ → List ℕ → Fate

abbrev pub payload_of : Fate → List ℕ
payload_of (whole p) = p
payload_of (torn n p) = p

abbrev bytes_of : Fate → List ℕ
bytes_of (whole p) = frame p
bytes_of (torn n p) = take n (frame p)

unfoldable pub bytes : List Fate → List ℕ
bytes [] = []
bytes (f ∷ fates) = bytes_of f ++ bytes fates

-- How many payloads were torn.
unfoldable pub losses : List Fate → ℕ
losses [] = 0
losses (whole p ∷ fates) = losses fates
losses (torn n p ∷ fates) = suc (losses fates)

-- How many calls of `sendall` fail.
abbrev pub breaks : List Sent → ℕ
breaks [] = 0
breaks (broken n ∷ sends) = suc (breaks sends)
breaks (done ∷ sends) = breaks sends
breaks (halt ∷ sends) = breaks sends

-- The payloads that left the queue, with what was written of them.
pub record Fates (before after : List (List ℕ)) (old new : List ℕ) (failures : ℕ) : Type 0 where
  pub fates : List Fate
  pub order : before ≡ map payload_of fates ++ after
  pub written : new ≡ old ++ bytes fates
  pub few : losses fates ≤ failures

pub no-Fates :
    (queue : List (List ℕ)) (wire : List ℕ) (failures : ℕ) → Fates queue queue wire wire failures
unfolding bytes losses
no-Fates queue wire failures = record {
  fates = [];
  order = refl;
  written = sym (append-nil wire);
  few = omega arith;
}

sent_first :
    (p : List ℕ) (queue after : List (List ℕ)) (old new : List ℕ) (failures : ℕ)
    → Fates queue after (old ++ frame p) new failures
    → Fates (p ∷ queue) after old new failures
unfolding bytes losses
sent_first p queue after old new failures h = record {
  fates = whole p ∷ h.fates;
  order = ap (◌∷◌ p) h.order;
  written = h.written ∙ append_assoc old (frame p) (bytes h.fates);
  few = h.few;
}

fits_false : (a b : ℕ) → a ≤ b → ltb b a ≡ false
fits_false a b h = ground arith

pub drain-Fates :
    (m : ℕ) (queue : List (List ℕ)) (sends : List Sent) (wire : List ℕ)
    → Fit m queue
    → let r = drain m queue sends wire in Fates queue r.0 wire r.1 (breaks sends)
unfolding drain
drain-Fates m [] sends wire fit = no-Fates [] wire (breaks sends)
drain-Fates m (p ∷ queue) (halt ∷ sends) wire fit = no-Fates (p ∷ queue) wire (breaks sends)
drain-Fates m (p ∷ queue) (broken n ∷ sends) wire (small, fit) =
    rw (fits_false (length p) m small, drain)
      (unfold bytes losses in
        record {
          fates = torn n p ∷ [];
          order = refl;
          written = ap (◌++◌ wire) (sym (append-nil (take n (frame p))));
          few = omega arith;
        })
drain-Fates m (p ∷ queue) (done ∷ sends) wire (small, fit) =
    rw (fits_false (length p) m small, drain)
      (sent_first p queue _ wire _ (breaks sends) (drain-Fates m queue sends (wire ++ frame p) fit))
drain-Fates m (p ∷ queue) [] wire (small, fit) =
    rw (fits_false (length p) m small, drain)
      (sent_first p queue _ wire _ 0 (drain-Fates m queue [] (wire ++ frame p) fit))

losses-append : (fs gs : List Fate) → losses (fs ++ gs) ≡ losses fs + losses gs
unfolding losses
losses-append [] gs = omega arith
losses-append (whole p ∷ fs) gs = losses-append fs gs
losses-append (torn n p ∷ fs) gs = ap suc (losses-append fs gs) ∙ omega arith

bytes-append : (fs gs : List Fate) → bytes (fs ++ gs) ≡ bytes fs ++ bytes gs
unfolding bytes
bytes-append [] gs = refl
bytes-append (f ∷ fs) gs =
    ap (◌++◌ (bytes_of f)) (bytes-append fs gs)
    ∙ sym (append_assoc (bytes_of f) (bytes fs) (bytes gs))

map-append :
    (fs gs : List Fate) → map payload_of (fs ++ gs) ≡ map payload_of fs ++ map payload_of gs
map-append [] gs = refl
map-append (f ∷ fs) gs = ap (◌∷◌ (payload_of f)) (map-append fs gs)

-- What happens first and what happens then, `x` being the bytes of a connection that was replaced between.
pub Fates-chain :
    (a b c : List (List ℕ)) (x old mid new : List ℕ) (f g : ℕ)
    → Fates a b old (x ++ mid) f
    → Fates b c mid new g
    → Fates a c old (x ++ new) (f + g)
Fates-chain a b c x old mid new f g h k =
    let fewer = losses-append h.fates k.fates in
    let first = h.few in
    let second = k.few in
    record {
      fates = h.fates ++ k.fates;
      order =
          h.order
          ∙ ap (◌++◌ (map payload_of h.fates)) k.order
          ∙ sym (append_assoc (map payload_of h.fates) (map payload_of k.fates) c)
          ∙ ap (λ ps. ps ++ c) (sym (map-append h.fates k.fates));
      written =
          ap (◌++◌ x) k.written
          ∙ sym (append_assoc x mid (bytes k.fates))
          ∙ ap (λ w. w ++ bytes k.fates) h.written
          ∙ append_assoc old (bytes h.fates) (bytes k.fates)
          ∙ ap (◌++◌ old) (sym (bytes-append h.fates k.fates));
      few = omega arith;
    }

-- On a new connection the bytes stand behind those of the one before.
pub Fates-shift :
    (a b : List (List ℕ)) (old new : List ℕ) (f : ℕ)
    → Fates a b [] new f
    → Fates a b old (old ++ new) f
Fates-shift a b old new f h = record {
  fates = h.fates;
  order = h.order;
  written = ap (◌++◌ old) h.written;
  few = h.few;
}
