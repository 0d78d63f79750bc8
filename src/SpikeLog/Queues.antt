-- ===== src/SpikeLog/Queues.antt =====
-- The queues of commits as a function from keys to lists.
use risc_v_pipeline_sim.Common.{
  ℕ, ◌≡◌, refl, arith, none, some, Option, List, [], ◌∷◌, ◌++◌, if◌then◌else◌,
}
use risc_v_pipeline_sim.SpikeLog.{Key, same_key, QueueMap, append_to, pop_from}

-- What waits under a key.
abbrev pub waiting : Key → QueueMap → List (ℕ × ℕ)
waiting key [] = []
waiting key ((k, vs) ∷ rest) = let later = waiting key rest in if same_key key k then vs else later

abbrev pub tail : List (ℕ × ℕ) → List (ℕ × ℕ)
tail [] = []
tail (v ∷ vs) = vs

abbrev pub head : List (ℕ × ℕ) → Option (ℕ × ℕ)
head [] = none
head (v ∷ vs) = some v

pub waiting-append_to :
    (key k : Key) (v : ℕ × ℕ) (queues : QueueMap)
    → waiting key (append_to k v queues)
      ≡ (if same_key key k then waiting key queues ++ v ∷ [] else waiting key queues)
unfolding append_to
waiting-append_to (a, b) (c, d) v [] = ground arith
waiting-append_to (a, b) (c, d) v (((e, f), vs) ∷ rest) =
    ground (arith, waiting-append_to (a, b) (c, d) v rest)

pub pop_from-head :
    (key : Key) (queues : QueueMap) → (pop_from key queues).0 ≡ head (waiting key queues)
unfolding pop_from
pop_from-head key [] = refl
pop_from-head (a, b) (((c, d), []) ∷ rest) = ground (arith, pop_from-head (a, b) rest)
pop_from-head (a, b) (((c, d), v ∷ vs) ∷ rest) = ground (arith, pop_from-head (a, b) rest)

pub waiting-pop_from :
    (key k : Key) (queues : QueueMap)
    → waiting key (pop_from k queues).1
      ≡ (if same_key key k then tail (waiting key queues) else waiting key queues)
unfolding pop_from
waiting-pop_from (a, b) (c, d) [] = ground arith
waiting-pop_from (a, b) (c, d) (((e, f), []) ∷ rest) =
    ground (arith, waiting-pop_from (a, b) (c, d) rest)
waiting-pop_from (a, b) (c, d) (((e, f), v ∷ vs) ∷ rest) =
    ground (arith, waiting-pop_from (a, b) (c, d) rest)
