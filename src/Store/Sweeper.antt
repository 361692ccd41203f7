-- ===== src/Store/Sweeper.antt =====
-- `sweep_loop` of src/store.rs beside the operations of any number of connections: the task that sweeps,
-- reads when the next entry is due, and waits for that instant or for a notification.
use redlike.Prelude.{ℕ, ◌+◌, ◌≤◌, ◌≡◌, true, false, Option, none, some, List, [], ◌∷◌, Bytes}
use redlike.Store.Expirations.{ExpirationHeap}
use redlike.Store.{Key, Store, set, del, expire, sweep_heap, sweep_map}

-- Where the sweeper stands: before a sweep, between its two phases, before `peek`, or waiting for an
-- instant, if it saw one, and for a notification.
pub data Phase : Type 0 where
  sweeping : Phase
  holding : List Key → ℕ → Phase
  peeking : Phase
  waiting : Option ℕ → Phase

pub record System : Type 0 where
  pub store : Store
  pub clock : ℕ
  pub phase : Phase

-- `heap.peek().map(|Reverse((wake_time, _))| *wake_time)`
unfoldable pub next_expire : ExpirationHeap → Option ℕ
next_expire [] = none
next_expire (e ∷ heap) = some e.0

-- What connections and the clock do. `del` reads the clock before it has the map's lock, so `now` may be
-- any instant; `get` and `ttl` change nothing.
pub data Client : System → System → Type 0 where
  sets : (y : System) (k : Key) (v : Bytes) → Client y (record y { store = (set y.store k v).0 })
  deletes : (y : System) (k : Key) (now : ℕ) → Client y (record y { store = (del y.store k now).0 })
  expires :
      (y : System) (k : Key) (n : ℕ)
      → Client y (record y { store = (expire y.store k n y.clock).0 })
  ticks : (y : System) (n : ℕ) → Client y (record y { clock = y.clock + n })

-- The sweeper's next action.
pub data Sweeps : System → System → Type 0 where
  takes_due :
      (y : System)
      → y.phase ≡ sweeping
      → Sweeps y (record y {
        store = (sweep_heap y.store y.clock).0;
        phase = holding (sweep_heap y.store y.clock).1 y.clock;
      })
  drops :
      (y : System) (ks : List Key) (swept : ℕ)
      → y.phase ≡ holding ks swept
      → Sweeps y (record y { store = sweep_map y.store ks swept; phase = peeking })
  peeks :
      (y : System)
      → y.phase ≡ peeking
      → Sweeps y (record y { phase = waiting (next_expire y.store.expiration_heap) })
  wakes :
      (y : System) (t : ℕ)
      → y.phase ≡ waiting (some t)
      → t ≤ y.clock
      → Sweeps y (record y { phase = sweeping })
  is_notified :
      (y : System) (w : Option ℕ)
      → y.phase ≡ waiting w
      → y.store.wakeup ≡ true
      → Sweeps y (record y { store = record y.store { wakeup = false }; phase = sweeping })

-- Any interleaving of the two.
pub data Reach (y : System) : System → Type 0 where
  here : Reach y y
  client : {z w : System} → Reach y z → Client z w → Reach y w
  sweeper : {z w : System} → Reach y z → Sweeps z w → Reach y w
