-- ===== src/Workflows/Graph/State/Refresh.antt =====
-- `_refresh_waiting_nodes` of backend/workflows/graph.py ends, and leaves every node settled.
use ryuk.Prelude.{
  ℕ, zero, suc, ◌+◌, ◌*◌, ◌≤◌, ◌<◌, String, ◌≡◌, refl, sym, ap, ◌∙◌, Bool, true, false, ◌||◌,
  Option, some, List, [], ◌∷◌, arith, if◌then◌else◌, any, all, All, Has, length, inl, inr, eq_iff,
  eq_refl, text-cases, Bool-cases, is_distinct, contains,
}
use ryuk.Prelude.Dict.{lookup, insert, lookup-insert, keys, keys-insert}
use ryuk.Prelude.Result.{ok}
use ryuk.Workflows.Graph.{GraphNode, node_ids}
use ryuk.Workflows.Graph.State.{
  NodeState, blocked, ready, running, awaiting_validation, uncertain, skipped, is_terminal,
  is_succeeded, is_unsuccessful, is_blocked, States, states_of, settle_blocked, settle_in, settle,
  refresh_pass, refresh,
}
use ryuk.Workflows.Graph.State.Coherent.{Sound, Fits, Settled}
use ryuk.Workflows.Graph.State.Update.{Fits-insert_other, Fits-insert_self}

-- The nodes that still wait: the rounds that a refresh can need.
unfoldable pub count_blocked : States → ℕ
count_blocked [] = 0
count_blocked ((k, s) ∷ st) = if is_blocked s then suc (count_blocked st) else count_blocked st

count_blocked-insert :
    (k : String) (v : NodeState) (st : States)
    → is_blocked v ≡ false
    → lookup k st ≡ some blocked
    → suc (count_blocked (insert k v st)) ≡ count_blocked st
unfolding count_blocked lookup insert is_blocked
count_blocked-insert k v [] h e = absurd (ground arith)
count_blocked-insert k v ((j, s) ∷ st) h e = ground (arith, count_blocked-insert k v st h)

pub count_blocked-le : (st : States) → count_blocked st ≤ length st
unfolding count_blocked
count_blocked-le [] = omega arith
count_blocked-le ((k, s) ∷ st) = ground (arith, count_blocked-le st)

-- How many more transitions a node can make, at most.
unfoldable pub weight : NodeState → ℕ
weight blocked = 5
weight ready = 4
weight running = 3
weight uncertain = 2
weight awaiting_validation = 1
weight _ = 0

unfoldable pub effort : States → ℕ
effort [] = 0
effort ((k, s) ∷ st) = weight s + effort st

pub weight-le : (s : NodeState) → weight s ≤ 5
unfolding weight
weight-le blocked = omega arith
weight-le s = omega arith

pub effort-le : (st : States) → effort st ≤ 5 * length st
unfolding effort
effort-le [] = omega arith
effort-le ((k, s) ∷ st) = omega (arith, weight-le s, effort-le st)

pub effort-insert :
    (k : String) (v old : NodeState) (st : States)
    → lookup k st ≡ some old
    → effort (insert k v st) + weight old ≡ effort st + weight v
unfolding effort lookup insert
effort-insert k v old [] e = absurd (ground arith)
effort-insert k v old ((j, s) ∷ st) e = ground (arith, effort-insert k v old st)

-- In nodes with distinct names a name stands for one node.
pub contains-Has :
    (m : GraphNode) (nodes : List GraphNode)
    → Has nodes m
    → contains m.node_id (node_ids nodes) ≡ true
contains-Has m [] h = absurd h
contains-Has m (n ∷ ns) (inl e) = rw (e, eq_refl)
contains-Has m (n ∷ ns) (inr h) = ground (arith, contains-Has m ns h)

pub same_node :
    (nodes : List GraphNode) (m n : GraphNode)
    → is_distinct (node_ids nodes) ≡ true
    → Has nodes m
    → Has nodes n
    → m.node_id ≡ n.node_id
    → m ≡ n
unfolding is_distinct
same_node [] m n d h k e = absurd h
same_node (x ∷ xs) m n d (inl h) (inl k) e = sym h ∙ k
same_node (x ∷ xs) m n d (inl h) (inr k) e =
    absurd (ground (arith, contains-Has n xs k, ap (λ (y : GraphNode). y.node_id) h))
same_node (x ∷ xs) m n d (inr h) (inl k) e =
    absurd (ground (arith, contains-Has m xs h, ap (λ (y : GraphNode). y.node_id) k))
same_node (x ∷ xs) m n d (inr h) (inr k) e = same_node xs m n (ground arith) h k e

-- What can become of a node that waits.
pub data Released : Option NodeState → Type 0 where
  still : Released (some blocked)
  released : Released (some ready)
  dropped : Released (some skipped)

Released-frame :
    (o : Option NodeState) (o' : Option NodeState)
    → Released o
    → ((s : NodeState) → is_blocked s ≡ false → o ≡ some s → o' ≡ some s)
    → (o ≡ some blocked → Released o')
    → Released o'
Released-frame o o' still keep more = more refl
Released-frame o o' released keep more = rw (keep ready (unfold is_blocked in refl) refl) released
Released-frame o o' dropped keep more = rw (keep skipped (unfold is_blocked in refl) refl) dropped

-- What a step of the refresh keeps, and what it brings about where it changes nothing.
pub record Kept (nodes : List GraphNode) (st st' : States) : Type 0 where
  pub fits : (m : GraphNode) → Has nodes m → Fits st' m
  pub keys_same : keys st' ≡ keys st
  pub blocked_le : count_blocked st' ≤ count_blocked st
  pub effort_le : effort st' ≤ effort st
  -- what does not wait stays as it is
  pub frame :
      (j : String) (s : NodeState)
      → is_blocked s ≡ false
      → lookup j st ≡ some s
      → lookup j st' ≡ some s
  pub released : (j : String) → lookup j st ≡ some blocked → Released (lookup j st')

module _ (nodes : List GraphNode) (distinct : is_distinct (node_ids nodes) ≡ true) where
  Kept-insert :
      (st : States) (n : GraphNode) (v : NodeState) (deps : List NodeState)
      → ((m : GraphNode) → Has nodes m → Fits st m)
      → Has nodes n
      → lookup n.node_id st ≡ some blocked
      → states_of st n.depends_on ≡ ok deps
      → is_blocked v ≡ false
      → Sound v deps
      → Released (some v)
      → Kept nodes st (insert n.node_id v st)
  unfolding is_terminal is_blocked weight
  Kept-insert st n v deps all_fit here was f moved sound turns = record {
    fits = λ m h. elim (text-cases n.node_id m.node_id) [
      | inl same_name ↦
          Fits-insert_self st n.node_id v blocked was refl m deps same_name
            (rw (same_node nodes m n distinct h here (sym same_name)) f) sound
      | inr differ ↦ Fits-insert_other st n.node_id v blocked was refl m differ (all_fit m h)
    ];
    keys_same = keys-insert n.node_id v blocked st was;
    blocked_le = omega (arith, count_blocked-insert n.node_id v st moved was);
    effort_le = omega (arith, effort-insert n.node_id v blocked st was, weight-le v);
    frame = λ j s free found. ground (arith, lookup-insert n.node_id j v st, eq_iff n.node_id j);
    released = λ j waits. elim (text-cases n.node_id j) [
      | inl same ↦ rw (lookup-insert, same, eq_refl) turns
      | inr differ ↦ rw (lookup-insert, differ, waits) still
    ];
  }

  pub Kept-refl : (st : States) → ((m : GraphNode) → Has nodes m → Fits st m) → Kept nodes st st
  Kept-refl st all_fit = record {
    fits = all_fit;
    keys_same = refl;
    blocked_le = omega arith;
    effort_le = omega arith;
    frame = λ j s free found. found;
    released = λ j waits. rw waits still;
  }

  -- What has been done for the nodes `ns`; `changed` says whether anything was.
  pub record Done (ns : List GraphNode) (st : States) (changed : Bool) (st' : States) : Type 0 where
    pub kept : Kept nodes st st'
    pub quiet : changed ≡ false → (st' ≡ st) × All (Settled st) ns
    pub progress : changed ≡ true → count_blocked st' < count_blocked st

  module _ (st : States) (all_fit : (m : GraphNode) → Has nodes m → Fits st m) (n : GraphNode)
      (here : Has nodes n) where
    -- A node that was settled by the change of its state.
    moved-Done :
        (v : NodeState) (deps : List NodeState)
        → lookup n.node_id st ≡ some blocked
        → states_of st n.depends_on ≡ ok deps
        → is_blocked v ≡ false
        → Sound v deps
        → Released (some v)
        → Done (n ∷ []) st true (insert n.node_id v st)
    moved-Done v deps was f moved sound turns = record {
      kept = Kept-insert st n v deps all_fit here was f moved sound turns;
      quiet = λ e. absurd (cc);
      progress = λ e. omega (arith, count_blocked-insert n.node_id v st moved was);
    }

    quiet-Done : Settled st n → Done (n ∷ []) st false st
    quiet-Done s = record {
      kept = Kept-refl st all_fit;
      quiet = λ e. (refl, (s, tt));
      progress = λ e. absurd (cc);
    }

    settle_blocked-Done :
        (deps : List NodeState)
        → lookup n.node_id st ≡ some blocked
        → states_of st n.depends_on ≡ ok deps
        → Sound blocked deps
        → Done (n ∷ []) st (settle_blocked st n deps).0 (settle_blocked st n deps).1
    unfolding settle_blocked is_blocked
    settle_blocked-Done deps was f sound = elim (Bool-cases (any is_unsuccessful deps)) [
      | inl lost ↦ rw lost (moved-Done skipped deps was f refl lost dropped)
      | inr alive ↦ elim (Bool-cases (all is_succeeded deps)) [
        | inl met ↦ rw (alive, met) (moved-Done ready deps was f refl met released)
        | inr unmet ↦
            rw (alive, unmet)
              (quiet-Done (record {
                fits = record {
                  state = blocked;
                  deps = deps;
                  has_state = was;
                  has_deps = f;
                  sound = sound;
                };
                waits = (unmet, alive);
              }))
      ]
    ]

    settle_in-Done :
        (s : NodeState) (deps : List NodeState)
        → lookup n.node_id st ≡ some s
        → states_of st n.depends_on ≡ ok deps
        → Sound s deps
        → (c : Bool) × (st' : States) × (settle_in st n s ≡ ok (c, st')) × Done (n ∷ []) st c st'
    unfolding settle_in
    settle_in-Done blocked deps was f sound =
        let r = settle_blocked st n deps in (r.0, r.1, rw f, settle_blocked-Done deps was f sound)
    settle_in-Done s deps was f sound = (
      false,
      st,
      refl,
      quiet-Done (record {
        fits = record { state = s; deps = deps; has_state = was; has_deps = f; sound = sound };
        waits = tt;
      }),
    )

    settle-Done : (c : Bool) × (st' : States) × (settle st n ≡ ok (c, st')) × Done (n ∷ []) st c st'
    unfolding settle
    settle-Done =
        let f = all_fit n here in
        let (c, st', e, d) = settle_in-Done f.state f.deps f.has_state f.has_deps f.sound in
        (c, st', rw f.has_state e, d)

  Kept-trans : (st st1 st2 : States) → Kept nodes st st1 → Kept nodes st1 st2 → Kept nodes st st2
  Kept-trans st st1 st2 a b = record {
    fits = b.fits;
    keys_same = b.keys_same ∙ a.keys_same;
    blocked_le = omega (arith, a.blocked_le, b.blocked_le);
    effort_le = omega (arith, a.effort_le, b.effort_le);
    frame = λ j s free found. b.frame j s free (a.frame j s free found);
    released = λ j waits.
        Released-frame (lookup j st1) (lookup j st2) (a.released j waits)
          (λ s free. b.frame j s free) (b.released j);
  }

  Done-cons :
      (n : GraphNode) (ns : List GraphNode) (st st1 st2 : States) (c d : Bool)
      → Done (n ∷ []) st c st1
      → Done ns st1 d st2
      → Done (n ∷ ns) st (c || d) st2
  Done-cons n ns st st1 st2 true d a b = record {
    kept = Kept-trans st st1 st2 a.kept b.kept;
    quiet = λ e. absurd (cc);
    progress = λ e. omega (arith, a.progress refl, b.kept.blocked_le);
  }
  Done-cons n ns st st1 st2 false d a b = record {
    kept = Kept-trans st st1 st2 a.kept b.kept;
    quiet = λ e.
        let (same, settled) = a.quiet refl in
        let (same', rest) = b.quiet e in (same' ∙ same, (settled.0, rw same at rest));
    progress = λ e. omega (arith, b.progress e, a.kept.blocked_le);
  }

  ||-assoc : (a b c : Bool) → ((a || b) || c) ≡ (a || (b || c))
  ||-assoc a b c = ground arith

  -- A pass over nodes of the graph raises nothing.
  refresh_pass-Done :
      (ns : List GraphNode) (changed : Bool) (st : States)
      → All (Has nodes) ns
      → ((m : GraphNode) → Has nodes m → Fits st m)
      → (c : Bool) × (st' : States) × (refresh_pass ns changed st ≡ ok (changed || c, st'))
        × Done ns st c st'
  unfolding refresh_pass
  refresh_pass-Done [] changed st here all_fit = (
    false,
    st,
    ground arith,
    record { kept = Kept-refl st all_fit; quiet = λ e. (refl, tt); progress = λ e. absurd (cc) },
  )
  refresh_pass-Done (n ∷ ns) changed st here all_fit =
      let (c, st1, e, a) = settle-Done st all_fit n here.0 in
      let (d, st2, f, b) = refresh_pass-Done ns (changed || c) st1 here.1 a.kept.fits in
      (c || d, st2, rw e (f ∙ rw (||-assoc changed c d)), Done-cons n ns st st1 st2 c d a b)

  -- The loop ends, with every node settled, within one round more than there are waiting nodes.
  pub refresh-Settled :
      (fuel : ℕ) (st : States)
      → count_blocked st < fuel
      → All (Has nodes) nodes
      → ((m : GraphNode) → Has nodes m → Fits st m)
      → (st' : States) × (refresh fuel nodes st ≡ ok st')
        × Kept nodes st st'
        × All (Settled st') nodes
  unfolding refresh
  refresh-Settled zero st b here all_fit = absurd (omega arith)
  refresh-Settled (suc fuel) st b here all_fit =
      let (c, st1, e, d) = refresh_pass-Done nodes false st here all_fit in
      elim (Bool-cases c) [
        | inl more ↦
            let (st2, f, kept, settled) =
              refresh-Settled fuel st1 (omega (arith, d.progress more)) here d.kept.fits in
            (st2, rw (e, more) f, Kept-trans st st1 st2 d.kept kept, settled)
        | inr finished ↦
            (st1, rw (e, finished), d.kept, rw (d.quiet finished).0 (d.quiet finished).1)
      ]
