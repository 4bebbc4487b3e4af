-- ===== src/Engine/Resumed.antt =====
-- crates/engine-core/src/sequencer.rs: the sequences that `restore_client_order_generators` finds.
use feynman_engine.Prelude.{
  ℕ, suc, ◌<◌, ◌≤◌, ◌^◌, ◌≡◌, refl, subst, inl, inr, some, String, [], ◌∷◌, Map, lookup,
  lookup-insert, arith, eq_iff, str_eq, Option-cases, Bool-cases,
}
use feynman_engine.Externs.{Externs}
use feynman_engine.Engine.State.{OrderAck}
use feynman_engine.Engine.Events.{Result, ok, err}
use feynman_engine.Engine.Ids.{
  ClientOrderIdGenerator, with_start_seq, parse_agent, parse_sequence, next,
}
use feynman_engine.Engine.Restore.{
  record_sequence, take_ack, generators, next_sequences, to_generators, raised, and_continue,
}

-- The agent has a sequence from `n` on.
abbrev pub Reaches : String → ℕ → Map ℕ → Type 0
Reaches agent n m = (k : ℕ) × (lookup agent m ≡ some k) × (n ≤ k)

-- Every sequence is a u64.
abbrev pub IsBounded : Map ℕ → Type 0
IsBounded m = (agent : String) (k : ℕ) → lookup agent m ≡ some k → k < 2 ^ 64

pub nothing-IsBounded : IsBounded []
unfolding lookup
nothing-IsBounded agent k found = absurd (ground arith)

record_sequence-Reaches :
    (agent other : String) (next n : ℕ) (m : Map ℕ)
    → Reaches other n m
    → Reaches other n (record_sequence agent next m)
unfolding record_sequence
record_sequence-Reaches agent other next n m (k, found, le) =
    let written = lookup-insert agent other (raised (lookup agent m) next) m in
    elim (Bool-cases (str_eq agent other)) [
      | inl same ↦
          let found' : lookup agent m ≡ some k = rw ((eq_iff agent other).0 same) found in
          (raised (lookup agent m) next, ground (arith, written), ground arith)
      | inr apart ↦ (k, ground (arith, written), le)
    ]

record_sequence-new :
    (agent : String) (next : ℕ) (m : Map ℕ) → Reaches agent next (record_sequence agent next m)
unfolding record_sequence
record_sequence-new agent next m =
    let written = lookup-insert agent agent (raised (lookup agent m) next) m in
    (raised (lookup agent m) next, ground (arith, written, eq_iff agent agent), ground arith)

record_sequence-IsBounded :
    (agent : String) (next : ℕ) (m : Map ℕ)
    → next < 2 ^ 64
    → IsBounded m
    → IsBounded (record_sequence agent next m)
unfolding record_sequence
record_sequence-IsBounded agent next m h b other k found = ground (
  arith,
  lookup-insert agent other (raised (lookup agent m) next) m,
  eq_iff agent other,
  b other k,
  b agent k,
)

ok_inj : (a b : Map ℕ) → ok a ≡ ok b → a ≡ b
ok_inj a b h = ground arith

-- An acknowledgement that is taken has both parts, and its sequence has a successor.
take_ack_ok :
    (id : String) (m m' : Map ℕ)
    → take_ack id m ≡ ok m'
    → (agent : String) × (sequence : ℕ) × (parse_agent id ≡ some agent)
      × (parse_sequence id ≡ some sequence)
      × (suc sequence < 2 ^ 64)
      × (record_sequence agent (suc sequence) m ≡ m')
unfolding take_ack
take_ack_ok id m m' h = elim (Option-cases (parse_agent id)) [
  | inl missing ↦ absurd (ground arith)
  | inr (agent, named) ↦ elim (Option-cases (parse_sequence id)) [
    | inl missing ↦ absurd (ground arith)
    | inr (sequence, counted) ↦ (agent, sequence, named, counted, ground arith, ground arith)
  ]
]

pub generators_lem :
    (epoch : ℕ) (agent : String) (m : Map ℕ) (k : ℕ)
    → lookup agent m ≡ some k
    → lookup agent (generators epoch m) ≡ some (with_start_seq agent epoch k)
unfolding generators lookup
generators_lem epoch agent [] k h = absurd (ground arith)
generators_lem epoch agent (entry ∷ rest) k h =
    let later = generators_lem epoch agent rest k in
    elim (Bool-cases (str_eq entry.0 agent)) [
      | inl same ↦
          let value : entry.1 ≡ k = ground arith in
          rw (same, value, (eq_iff entry.0 agent).0 same) refl
      | inr apart ↦ rw apart (later (ground arith))
    ]

pub generators_only :
    (epoch : ℕ) (agent : String) (m : Map ℕ) (gen : ClientOrderIdGenerator)
    → lookup agent (generators epoch m) ≡ some gen
    → (k : ℕ) × (lookup agent m ≡ some k) × (gen ≡ with_start_seq agent epoch k)
unfolding generators lookup
generators_only epoch agent [] gen h = absurd (ground arith)
generators_only epoch agent (entry ∷ rest) gen h = elim (Bool-cases (str_eq entry.0 agent)) [
  | inl same ↦ (entry.1, rw same refl, ground (arith, eq_iff entry.0 agent))
  | inr apart ↦
      let (k, found, made) = generators_only epoch agent rest gen (ground arith) in
      (k, rw apart found, made)
]

-- The cache is walked: every identifier in it is below what its agent has in the end.
module _ (E : Externs) where
  -- What an identifier says of the sequences that were found.
  abbrev pub Covers : String → Map ℕ → Type 0
  Covers id m =
      (agent : String) × (sequence : ℕ) × (parse_agent id ≡ some agent)
      × (parse_sequence id ≡ some sequence)
      × Reaches agent (suc sequence) m

  and_continue_ok :
      (r : Result (Map ℕ)) (rest : Map ℕ → Result (Map ℕ)) (m' : Map ℕ)
      → and_continue E r rest ≡ ok m'
      → (m : Map ℕ) × (r ≡ ok m) × (rest m ≡ ok m')
  and_continue_ok (ok m) rest m' h = (m, refl, h)
  and_continue_ok (err e) rest m' h = absurd (ground arith)
  and_continue_ok (Result.panic text) rest m' h = absurd (ground arith)

  -- The first acknowledgement of a walk that succeeds.
  first_ok :
      (key : String) (ack : OrderAck E) (rest : Map (OrderAck E)) (m m' : Map ℕ)
      → next_sequences E ((key, ack) ∷ rest) m ≡ ok m'
      → (agent : String) × (sequence : ℕ) × (parse_agent ack.client_order_id ≡ some agent)
        × (parse_sequence ack.client_order_id ≡ some sequence)
        × (suc sequence < 2 ^ 64)
        × (next_sequences E rest (record_sequence agent (suc sequence) m) ≡ ok m')
  unfolding next_sequences
  first_ok key ack rest m m' h =
      let (m1, taken, later) =
        and_continue_ok (take_ack ack.client_order_id m) (next_sequences E rest) m' h in
      let (agent, sequence, named, counted, bounded, recorded) =
        take_ack_ok ack.client_order_id m m1 taken in
      (agent, sequence, named, counted, bounded, rw recorded later)

  next_sequences-Reaches :
      (acks : Map (OrderAck E)) (m m' : Map ℕ) (agent : String) (n : ℕ)
      → next_sequences E acks m ≡ ok m'
      → Reaches agent n m
      → Reaches agent n m'
  unfolding next_sequences
  next_sequences-Reaches [] m m' agent n h r = subst (Reaches agent n) (ok_inj m m' h) r
  next_sequences-Reaches (entry ∷ rest) m m' agent n h r =
      let (a, sequence, named, counted, bounded, later) = first_ok entry.0 entry.1 rest m m' h in
      next_sequences-Reaches rest (record_sequence a (suc sequence) m) m' agent n later
        (record_sequence-Reaches a agent (suc sequence) n m r)

  pub next_sequences-Covers :
      (acks : Map (OrderAck E)) (m m' : Map ℕ) (key : String) (ack : OrderAck E)
      → next_sequences E acks m ≡ ok m'
      → lookup key acks ≡ some ack
      → Covers ack.client_order_id m'
  unfolding next_sequences lookup
  next_sequences-Covers [] m m' key ack h found = absurd (ground arith)
  next_sequences-Covers (entry ∷ rest) m m' key ack h found =
      let (a, sequence, named, counted, bounded, later) = first_ok entry.0 entry.1 rest m m' h in
      let m1 = record_sequence a (suc sequence) m in
      let reached =
        next_sequences-Reaches rest m1 m' a (suc sequence) later
          (record_sequence-new a (suc sequence) m) in
      elim (Bool-cases (str_eq entry.0 key)) [
        | inl same ↦
            let here : entry.1 ≡ ack = ground arith in
            subst (λ x. Covers x.client_order_id m') here (a, sequence, named, counted, reached)
        | inr apart ↦ next_sequences-Covers rest m1 m' key ack later (ground arith)
      ]

  pub next_sequences-IsBounded :
      (acks : Map (OrderAck E)) (m m' : Map ℕ)
      → next_sequences E acks m ≡ ok m'
      → IsBounded m
      → IsBounded m'
  unfolding next_sequences
  next_sequences-IsBounded [] m m' h b = subst IsBounded (ok_inj m m' h) b
  next_sequences-IsBounded (entry ∷ rest) m m' h b =
      let (a, sequence, named, counted, bounded, later) = first_ok entry.0 entry.1 rest m m' h in
      next_sequences-IsBounded rest (record_sequence a (suc sequence) m) m' later
        (record_sequence-IsBounded a (suc sequence) m bounded b)

  pub to_generators_ok :
      (r : Result (Map ℕ)) (epoch : ℕ) (gens : Map ClientOrderIdGenerator)
      → to_generators E r epoch ≡ ok gens
      → (m : Map ℕ) × (r ≡ ok m) × (gens ≡ generators epoch m)
  to_generators_ok (ok m) epoch gens h = (m, refl, ground arith)
  to_generators_ok (err e) epoch gens h = absurd (ground arith)
  to_generators_ok (Result.panic text) epoch gens h = absurd (ground arith)
