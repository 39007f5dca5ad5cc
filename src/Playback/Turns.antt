-- ===== src/Playback/Turns.antt =====
-- The rounds of the playback thread.
use xiaozhi.AudioBuffer
use xiaozhi.AudioBuffer.{AudioBuffer, Block}
use xiaozhi.AudioBuffer.Invariant.{IsValid}
use xiaozhi.AudioBuffer.Refine.{Chunk, contents, pop_cases}
use xiaozhi.Base.{
  ℕ, suc, ◌≡◌, refl, ap, Bool, true, false, ◌&&◌, List, [], ◌∷◌, ◌++◌, none, some, arith, map, inl,
  inr, length, ◌==◌,
}
use xiaozhi.Base.Strings.{Bytes}
use xiaozhi.Playback.{Player, Did, played, stopped, request_stop, play, turn}

-- Rounds, each with whether the device opens and whether all is written: the bytes of the blocks that
-- are played.
abbrev pub sounds : Did → List Bytes
sounds (played bytes) = bytes ∷ []
sounds _ = []

abbrev pub play_all : Player → List Bool → List Bytes × Player
play_all p [] = ([], p)
play_all p (written ∷ rounds) =
    let t = turn p true written in
    let (rest, p') = play_all t.player rounds in (sounds t.did ++ rest, p')

turn_block :
    (p : Player) (written : Bool) (k : Block) (b : AudioBuffer)
    → p.pb.running ≡ true
    → p.pb.stop_requested ≡ false
    → AudioBuffer.pop p.pb.queue ≡ (some k, b)
    → turn p true written ≡ record {
      player = record { pb = record p.pb { queue = b }; device = some k.sample_rate };
      did = played (AudioBuffer.read b k);
      finished = written && b.count == 0;
    }
unfolding turn play
turn_block p written k b r s e = ground arith

too_short : {c : Chunk} {cs xs : List Chunk} → xs ≡ c ∷ cs → ¬ (0 ≡ length xs)
too_short e n = omega (arith, ap length e)

too_long : (w : Bool) (ws : List Bool) {xs : List Chunk} → xs ≡ [] → ¬ (length (w ∷ ws) ≡ length xs)
too_long w ws e n = omega (arith, ap length e)

one_less : {m n k : ℕ} → k ≡ suc n → suc m ≡ k → m ≡ n
one_less e h = omega arith

-- A thread that is not asked to stop plays the blocks of its queue in order, as many rounds as it
-- makes, and opens its device where it has to.
all_played :
    (p : Player) (rounds : List Bool)
    → IsValid p.pb.queue
    → p.pb.running ≡ true
    → p.pb.stop_requested ≡ false
    → length rounds ≡ length (contents p.pb.queue)
    → (play_all p rounds).0 ≡ map (λ (c : Chunk). c.0) (contents p.pb.queue)
all_played p [] v r s n = elim (pop_cases v) [
  | inl (e, f) ↦ rw e refl
  | inr (k, b, f, e, w) ↦ absurd (too_short e n)
]
all_played p (written ∷ rounds) v r s n = elim (pop_cases v) [
  | inl (e, f) ↦ absurd (too_long written rounds e n)
  | inr (k, b, f, e, w) ↦
      let ih =
        all_played (record { pb = record p.pb { queue = b }; device = some k.sample_rate }) rounds w
          r s (one_less (ap length e) n) in
      rw (e, turn_block p written k b r s f, ih) refl
]

turn_stop :
    (p : Player) (opens written : Bool)
    → p.pb.running ≡ true
    → turn (record p { pb = request_stop p.pb }) opens written ≡ record {
      player = record { pb = record p.pb { stop_requested = false }; device = none };
      did = stopped;
      finished = true;
    }
unfolding turn request_stop
turn_stop p opens written r = ground arith

-- A stop that is requested drops what the device still holds and reports the end of the playback, but
-- not the queue: if the thread makes as many more rounds as blocks are queued, it plays all of them,
-- in order, after it reported the end. The thread runs, its queue is valid and the device opens.
pub stop_keeps_queue :
    (p : Player) (written : Bool) (rounds : List Bool)
    → IsValid p.pb.queue
    → p.pb.running ≡ true
    → length rounds ≡ length (contents p.pb.queue)
    → ((turn (record p { pb = request_stop p.pb }) true written).finished ≡ true)
      × ((play_all (record p { pb = request_stop p.pb }) (written ∷ rounds)).0
          ≡ map (λ (c : Chunk). c.0) (contents p.pb.queue))
stop_keeps_queue p written rounds v r n =
    let ih =
      all_played (record { pb = record p.pb { stop_requested = false }; device = none }) rounds v r
        refl n in
    rw (turn_stop p true written r) (refl, ih)
