-- ===== src/Ledger/Reconcile.antt =====
-- `Workspace.reconcile`: what opening an evaluation does about calls that a killed process left.
use code_analyzer.Prelude.{
  ℕ, suc, ◌≡◌, refl, sym, ap, ◌∙◌, true, List, [], ◌∷◌, ◌++◌, map, any, arith, Bool-cases, inl, inr,
  append-nil, append_assoc, none, false, Has, Has-append_left, Has-append_right, subst,
}
use code_analyzer.Prelude.Text.{Text, text_eq, text_eq→eq, text_eq_refl}
use code_analyzer.Ledger.{
  Record, File, Writer, Event, call_started, call_finished, other, finishes, events, started,
  started_by, unfinished, close_all, reconcile, append_many, read, numbered, last_seq,
}
use code_analyzer.Ledger.Unique.{read-grow}
use mathlib.Core.List.{map-append}

says-numbered :
    (seq : ℕ) (entries : List Event) → map (λ r. r.says) (numbered seq entries) ≡ entries
says-numbered seq [] = refl
says-numbered seq (e ∷ entries) = ap (λ t. e ∷ t) (says-numbered (suc seq) entries)

module _ (width : Record Event → ℕ) where
  events-append_many :
      (writer : Writer) (entries : List Event) (file : File Event)
      → events (append_many width writer entries file).1 ≡ events file ++ entries
  events-append_many writer entries file =
      let rs = numbered (last_seq width writer file) entries in
      ap (map (λ r. r.says)) (read-grow file rs none ∙ append-nil (read file ++ rs))
      ∙ map-append (λ r. r.says) (read file) rs
      ∙ ap (λ back. events file ++ back) (says-numbered (last_seq width writer file) entries)

  events-close_all :
      (ids : List Text) (writer : Writer) (file : File Event)
      → events (close_all width ids (writer, file)).1 ≡ events file ++ map call_finished ids
  events-close_all [] writer file = sym (append-nil (events file))
  events-close_all (id ∷ ids) writer file =
      events-close_all ids (append_many width writer (call_finished id ∷ []) file).0
        (append_many width writer (call_finished id ∷ []) file).1
      ∙ ap (λ front. front ++ map call_finished ids)
          (events-append_many writer (call_finished id ∷ []) file)
      ∙ append_assoc (events file) (call_finished id ∷ []) (map call_finished ids)

started-append :
    (xs : List Event) (ids : List Text) → started (xs ++ map call_finished ids) ≡ started xs
started-append [] [] = refl
started-append [] (id ∷ ids) = started-append [] ids
started-append (call_started id ∷ xs) ids = ap (λ t. id ∷ t) (started-append xs ids)
started-append (call_finished id ∷ xs) ids = started-append xs ids
started-append (other id ∷ xs) ids = started-append xs ids

any-Has : (id : Text) (es : List Event) → any (finishes id) es ≡ true → Has (call_finished id) es
any-Has id [] h = absurd (cc)
any-Has id (call_started j ∷ es) h = inr (any-Has id es h)
any-Has id (other j ∷ es) h = inr (any-Has id es h)
any-Has id (call_finished j ∷ es) h = elim (Bool-cases (text_eq id j)) [
  | inl e ↦ inl (ap call_finished (sym (text_eq→eq id j e)))
  | inr e ↦ inr (any-Has id es (ground (arith, e, h)))
]

Has-any : (id : Text) (es : List Event) → Has (call_finished id) es → any (finishes id) es ≡ true
Has-any id [] h = elim h [ ]
Has-any id (e ∷ es) (inl q) = rw (q, text_eq_refl id) refl
Has-any id (e ∷ es) (inr h) = ground (arith, Has-any id es h)

started-Has : (id : Text) (es : List Event) → Has (call_started id) es → Has id (started es)
started-Has id [] h = elim h [ ]
started-Has id (e ∷ es) (inl q) = rw q (inl refl)
started-Has id (e ∷ es) (inr h) =
    Has-append_right id (started_by e) (started es) (started-Has id es h)

Has-started : (id : Text) (es : List Event) → Has id (started es) → Has (call_started id) es
Has-started id [] h = elim h [ ]
Has-started id (call_started j ∷ es) (inl q) = inl (ap call_started q)
Has-started id (call_started j ∷ es) (inr h) = inr (Has-started id es h)
Has-started id (call_finished j ∷ es) h = inr (Has-started id es h)
Has-started id (other j ∷ es) h = inr (Has-started id es h)

-- An id that is kept was given, and nothing finishes it.
unfinished-open :
    (all : List Event) (ids : List Text) (id : Text)
    → Has id (unfinished all ids)
    → Has id ids × (any (finishes id) all ≡ false)
unfolding unfinished
unfinished-open all [] id h = elim h [ ]
unfinished-open all (j ∷ ids) id h = elim (Bool-cases (any (finishes j) all)) [
  | inl e ↦ let (a, b) = unfinished-open all ids id (rw e at h) in (inr a, b)
  | inr e ↦ go (λ k. unfinished-open all ids id k) (rw e at h) e
]
  where
    go :
        (Has id (unfinished all ids) → Has id ids × (any (finishes id) all ≡ false))
        → Has id (j ∷ unfinished all ids)
        → any (finishes j) all ≡ false
        → Has id (j ∷ ids) × (any (finishes id) all ≡ false)
    go ih (inl q) e = (inl q, rw (sym q) e)
    go ih (inr h) e = let (a, b) = ih h in (inr a, b)

open-unfinished :
    (all : List Event) (ids : List Text) (id : Text)
    → Has id ids
    → any (finishes id) all ≡ false
    → Has id (unfinished all ids)
unfolding unfinished
open-unfinished all [] id h n = elim h [ ]
open-unfinished all (j ∷ ids) id (inl q) n = rw (q, n) (inl refl)
open-unfinished all (j ∷ ids) id (inr h) n = elim (Bool-cases (any (finishes j) all)) [
  | inl e ↦ rw e (open-unfinished all ids id h n)
  | inr e ↦ rw e (inr (open-unfinished all ids id h n))
]

Has-map :
    (id : Text) (ids : List Text) → Has id ids → Has (call_finished id) (map call_finished ids)
Has-map id [] h = elim h [ ]
Has-map id (j ∷ ids) (inl q) = inl (ap call_finished q)
Has-map id (j ∷ ids) (inr h) = inr (Has-map id ids h)

-- After `reconcile`, whatever killed processes left: the records are those in front, followed by
-- one that finishes each of the calls that it closed; those calls had started and were not
-- finished; and each call that has started is finished.
pub reconcile-closes :
    (width : Record Event → ℕ) (writer : Writer) (file : File Event)
    → let (closed, state) = reconcile width writer file in
      (events state.1 ≡ events file ++ map call_finished closed)
      × ((id : Text)
          → Has id closed
          → Has (call_started id) (events file) × (Has (call_finished id) (events file) → ⊥))
      × ((id : Text)
          → Has (call_started id) (events state.1)
          → Has (call_finished id) (events state.1))
reconcile-closes width writer file =
    let all = events file in
    let closed = unfinished all (started all) in
    let e = events-close_all width closed writer file in
    (
      e,
      λ id h.
          let (a, b) = unfinished-open all (started all) id h in
          (Has-started id all a, λ k. absurd (let c = Has-any id all k in cc)),
      λ id h. subst (Has (call_finished id)) (sym e) (
          finished id (
            subst (Has id) (started-append all closed) (
              started-Has id (all ++ map call_finished closed)
                (subst (Has (call_started id)) e h)))),
    )
  where
    finished :
        (id : Text)
        → Has id (started (events file))
        → Has
            (call_finished id)
            (events file ++ map call_finished (unfinished (events file) (started (events file))))
    finished id h =
        let all = events file in
        elim (Bool-cases (any (finishes id) all)) [
          | inl e ↦ Has-append_left (call_finished id) all _ (any-Has id all e)
          | inr e ↦
              Has-append_right (call_finished id) all _
                (Has-map id _ (open-unfinished all (started all) id h e))
        ]
