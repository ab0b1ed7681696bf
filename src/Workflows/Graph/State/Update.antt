-- ===== src/Workflows/Graph/State/Update.antt =====
-- What a change of one node that was not terminal does to the other nodes of
-- backend/workflows/graph.py.
use ryuk.Prelude.{
  String, ◌≡◌, refl, sym, ap, ◌∙◌, true, false, some, List, [], ◌∷◌, arith, any, all, is_empty, inl,
  inr, ◌==◌, eq_refl, text-cases, some_inj,
}
use ryuk.Prelude.Dict.{lookup, insert, lookup-insert}
use ryuk.Prelude.Result.{ok, key_error, or_raise, bind-ok, or_raise-ok, ok_inj}
use ryuk.Workflows.Graph.{GraphNode}
use ryuk.Workflows.Graph.State.{
  NodeState, blocked, succeeded, skipped, is_terminal, is_succeeded, is_unsuccessful, States,
  states_of,
}
use ryuk.Workflows.Graph.State.Coherent.{Sound, Waits, Fits, Settled}

-- The states of some nodes, before and after one that was not terminal becomes `v`.
data Replaced (v : NodeState) : List NodeState → List NodeState → Type 0 where
  nil : Replaced v [] []
  same : {d : NodeState} {ds es : List NodeState} → Replaced v ds es → Replaced v (d ∷ ds) (d ∷ es)
  other :
      {d : NodeState} {ds es : List NodeState}
      → is_terminal d ≡ false
      → Replaced v ds es
      → Replaced v (d ∷ ds) (v ∷ es)

is_empty-Replaced :
    {v : NodeState} {ds es : List NodeState} → Replaced v ds es → is_empty es ≡ is_empty ds
is_empty-Replaced nil = refl
is_empty-Replaced (same r) = refl
is_empty-Replaced (other t r) = refl

-- A state is none of the two kinds of terminal states if it is not terminal.
pub not_terminal :
    (d : NodeState) → is_terminal d ≡ false → (is_succeeded d ≡ false) × (is_unsuccessful d ≡ false)
unfolding is_terminal is_succeeded is_unsuccessful
not_terminal succeeded h = absurd (cc)
not_terminal blocked h = ground arith
not_terminal d h = ground arith

all-Replaced :
    {v : NodeState} {ds es : List NodeState}
    → Replaced v ds es
    → all is_succeeded ds ≡ true
    → all is_succeeded es ≡ true
all-Replaced nil h = h
all-Replaced (same r) h = ground (arith, all-Replaced r)
all-Replaced (other {d = d} t r) h = absurd (ground (arith, not_terminal d t))

any-Replaced :
    {v : NodeState} {ds es : List NodeState}
    → Replaced v ds es
    → any is_unsuccessful ds ≡ true
    → any is_unsuccessful es ≡ true
any-Replaced nil h = h
any-Replaced (same r) h = ground (arith, any-Replaced r)
any-Replaced (other {d = d} t r) h = ground (arith, not_terminal d t, any-Replaced r)

-- Where the new state is not terminal either, the dependents see no difference.
all-Replaced_open :
    {v : NodeState} {ds es : List NodeState}
    → is_terminal v ≡ false
    → Replaced v ds es
    → all is_succeeded es ≡ all is_succeeded ds
all-Replaced_open o nil = refl
all-Replaced_open o (same r) = ground (arith, all-Replaced_open o r)
all-Replaced_open {v} o (other {d = d} t r) = ground (arith, not_terminal d t, not_terminal v o)

any-Replaced_open :
    {v : NodeState} {ds es : List NodeState}
    → is_terminal v ≡ false
    → Replaced v ds es
    → any is_unsuccessful es ≡ any is_unsuccessful ds
any-Replaced_open o nil = refl
any-Replaced_open o (same r) = ground (arith, any-Replaced_open o r)
any-Replaced_open {v} o (other {d = d} t r) =
    ground (arith, not_terminal d t, not_terminal v o, any-Replaced_open o r)

Sound-Replaced :
    {v : NodeState} {ds es : List NodeState}
    → Replaced v ds es
    → (s : NodeState) → Sound s ds
    → Sound s es
Sound-Replaced r blocked h = is_empty-Replaced r ∙ h
Sound-Replaced r skipped h = any-Replaced r h
Sound-Replaced r _ h = all-Replaced r h

Waits-Replaced :
    {v : NodeState} {ds es : List NodeState}
    → is_terminal v ≡ false
    → Replaced v ds es
    → (s : NodeState) → Waits s ds
    → Waits s es
Waits-Replaced o r blocked h = (all-Replaced_open o r ∙ h.0, any-Replaced_open o r ∙ h.1)
Waits-Replaced o r _ h = tt

pub states_of-cons :
    (st : States) (k : String) (ks : List String) (ds : List NodeState)
    → states_of st (k ∷ ks) ≡ ok ds
    → (d : NodeState) × (rest : List NodeState) × (lookup k st ≡ some d)
      × (states_of st ks ≡ ok rest)
      × (d ∷ rest ≡ ds)
unfolding states_of
states_of-cons st k ks ds h =
    let (d, e, after) = bind-ok (or_raise (lookup k st) key_error) _ h in
    let (rest, f, made) = bind-ok (states_of st ks) _ after in
    (d, rest, or_raise-ok (lookup k st) key_error e, f, ok_inj made)

module _ (st : States) (n : String) (v old : NodeState) (was : lookup n st ≡ some old)
    (live : is_terminal old ≡ false) where
  stayed : (d : NodeState) (k : String) → lookup k st ≡ some d → n ≡ k → is_terminal d ≡ false
  stayed d k e same_name =
      ap is_terminal (some_inj (sym e ∙ ap (λ x. lookup x st) (sym same_name) ∙ was)) ∙ live

  states_of-insert :
      (ks : List String) (ds : List NodeState)
      → states_of st ks ≡ ok ds
      → (es : List NodeState) × (states_of (insert n v st) ks ≡ ok es) × Replaced v ds es
  unfolding states_of
  states_of-insert [] ds h = ([], refl, rw (← ok_inj h) nil)
  states_of-insert (k ∷ ks) ds h =
      let (d, rest, e, f, made) = states_of-cons st k ks ds h in
      let (es, g, r) = states_of-insert ks rest f in
      elim (text-cases n k) [
        | inl same_name ↦ (
          v ∷ es,
          rw (lookup-insert, same_name, eq_refl, g),
          rw (← made) (other (stayed d k e same_name) r),
        )
        | inr differ ↦ (d ∷ es, rw (lookup-insert, differ, e, g), rw (← made) (same r))
      ]

  -- Another node keeps its state, and its dependencies still fit.
  pub Fits-insert_other :
      (m : GraphNode) → (n == m.node_id) ≡ false → Fits st m → Fits (insert n v st) m
  Fits-insert_other m differ f =
      let (es, g, r) = states_of-insert m.depends_on f.deps f.has_deps in
      record {
        state = f.state;
        deps = es;
        has_state = rw (lookup-insert, differ) f.has_state;
        has_deps = g;
        sound = Sound-Replaced r f.state f.sound;
      }

  -- The changed node fits if its new state fits the dependencies as they were.
  pub Fits-insert_self :
      (m : GraphNode) (deps : List NodeState)
      → n ≡ m.node_id
      → states_of st m.depends_on ≡ ok deps
      → Sound v deps
      → Fits (insert n v st) m
  Fits-insert_self m deps same_name f sound =
      let (es, g, r) = states_of-insert m.depends_on deps f in
      record {
        state = v;
        deps = es;
        has_state = rw (lookup-insert, same_name, eq_refl);
        has_deps = g;
        sound = Sound-Replaced r v sound;
      }

  module _ (open_end : is_terminal v ≡ false) where
    pub Settled-insert_other :
        (m : GraphNode) → (n == m.node_id) ≡ false → Settled st m → Settled (insert n v st) m
    Settled-insert_other m differ h =
        let (es, g, r) = states_of-insert m.depends_on h.fits.deps h.fits.has_deps in
        record {
          fits = record {
            state = h.fits.state;
            deps = es;
            has_state = rw (lookup-insert, differ) h.fits.has_state;
            has_deps = g;
            sound = Sound-Replaced r h.fits.state h.fits.sound;
          };
          waits = Waits-Replaced open_end r h.fits.state h.waits;
        }

    pub Settled-insert_self :
        (m : GraphNode) (deps : List NodeState)
        → n ≡ m.node_id
        → states_of st m.depends_on ≡ ok deps
        → Sound v deps
        → Waits v deps
        → Settled (insert n v st) m
    Settled-insert_self m deps same_name f sound waits =
        let (es, g, r) = states_of-insert m.depends_on deps f in
        record {
          fits = record {
            state = v;
            deps = es;
            has_state = rw (lookup-insert, same_name, eq_refl);
            has_deps = g;
            sound = Sound-Replaced r v sound;
          };
          waits = Waits-Replaced open_end r v waits;
        }
