-- ===== src/Approvals/Granted.antt =====
-- What a click must meet for a tool to run.
use code_analyzer.Prelude.{
  ℕ, ◌≤◌, ◌≡◌, refl, sym, ap, ◌∙◌, subst, Bool, true, false, ◌||◌, not, Option, none, some, List,
  [], ◌∷◌, if◌then◌else◌, arith, Bool-cases, inl, inr, Has,
}
use code_analyzer.Prelude.Text.{Text, text_eq, text_eq→eq, is_empty, codes}
use code_analyzer.Schema.Values.{Json}
use code_analyzer.Approvals.{
  Log, is_decided, Answer, reject, approve, Card, Request, cards, card_of, decide, decide_on,
  answer_card, reason_of, state_of, already_decided, runs,
}

module _ (args_sha : Text → Json → Text) (digest : Text → Text) where
  -- The click is for the card as it was shown, in time, and nothing has changed since.
  pub record IsCleared (card : Card) (answer : Answer) (id sha : Text) (now : ℕ) (log : Log)
      : Type 0 where
    pub shown : Has card (cards log)
    pub id_is : card.id ≡ id
    pub approved : answer ≡ approve
    pub undecided : is_decided id log ≡ false
    pub clicked : sha ≡ card.args_sha256
    pub arguments : args_sha card.request.tool card.request.arguments ≡ card.args_sha256
    pub in_time : now ≤ card.expires_at
    pub state : state_of digest log ≡ card.state

  card_of-shown :
      (id : Text) (cs : List Card) (card : Card)
      → card_of id cs ≡ some card
      → Has card cs × (card.id ≡ id)
  card_of-shown id [] card e = absurd (cc)
  card_of-shown id (c ∷ cs) card e = go (λ q. card_of-shown id cs card q) (card_of id cs) refl e
    where
      go :
          (card_of id cs ≡ some card → Has card cs × (card.id ≡ id))
          → (o : Option Card) → card_of id cs ≡ o
          → (elim o [ some later ↦ some later | none ↦ if text_eq id c.id then some c else none ])
            ≡ some card
          → Has card (c ∷ cs) × (card.id ≡ id)
      go ih (some later) q e = let (h, k) = ih (q ∙ e) in (inr h, k)
      go ih none q e = elim (Bool-cases (text_eq id c.id)) [
        | inr f ↦ absurd (ground (arith, f, e))
        | inl f ↦
            let same : c ≡ card = ground (arith, f, e) in
            (inl same, ap (λ x. x.id) (sym same) ∙ sym (text_eq→eq id c.id f))
      ]

  -- No reason stands against a card only where nothing has changed.
  reason_of-empty :
      (a b c d : Bool)
      → is_empty (
          if not a || not b
          then codes "the arguments do not match the card"
          else if c
          then codes "the card expired (30 minutes)"
          else if not d
          then codes "the evaluation changed since the card was shown"
          else [])
        ≡ true
      → (a ≡ true) × (b ≡ true) × (c ≡ false) × (d ≡ true)
  reason_of-empty true true false true e = (refl, refl, refl, refl)
  reason_of-empty true true false false e = absurd (cc)
  reason_of-empty true true true d e = absurd (cc)
  reason_of-empty true false c d e = absurd (cc)
  reason_of-empty false b c d e = absurd (cc)

  answer_card-IsCleared :
      (answer : Answer) (card : Card) (id by sha : Text) (now : ℕ) (log : Log) (request : Request)
      → Has card (cards log) × (card.id ≡ id)
      → is_decided id log ≡ false
      → (answer_card args_sha digest answer card id by sha now log).0 ≡ runs request
      → IsCleared card answer id sha now log × (card.request ≡ request)
  answer_card-IsCleared reject card id by sha now log request s u e = absurd (cc)
  answer_card-IsCleared approve card id by sha now log request s u e =
      elim (Bool-cases (is_empty (reason_of args_sha digest card sha now log))) [
        | inr f ↦ absurd (ground (arith, f, e))
        | inl f ↦
            let (a, b, c, d) = reason_of-empty _ _ _ _ f in
            (
              record {
                shown = s.0;
                id_is = s.1;
                approved = refl;
                undecided = u;
                clicked = text_eq→eq _ _ a;
                arguments = text_eq→eq _ _ b;
                in_time = ground (arith, c);
                state = text_eq→eq _ _ d;
              },
              ground (arith, f, e),
            )
      ]

  decide_on-IsCleared :
      (o : Option Card) (answer : Answer) (id by sha : Text) (now : ℕ) (log : Log)
      (request : Request)
      → card_of id (cards log) ≡ o
      → (decide_on args_sha digest o answer id by sha now log).0 ≡ runs request
      → (card : Card) × IsCleared card answer id sha now log × (card.request ≡ request)
  decide_on-IsCleared none answer id by sha now log request q e = absurd (cc)
  decide_on-IsCleared (some card) answer id by sha now log request q e =
      elim (Bool-cases (is_decided id log)) [
        | inl h ↦ absurd (ground (arith, h, e))
        | inr h ↦
            let (a, b) =
              answer_card-IsCleared answer card id by sha now log request
                (card_of-shown id (cards log) card q) h
                (subst
                  (λ b.
                    (if b
                      then (already_decided, log)
                      else answer_card args_sha digest answer card id by sha now log).0
                    ≡ runs request)
                  h e) in
            (card, a, b)
      ]

  -- A click makes a tool run only where a card with that id was shown for the tool with these
  -- arguments, the click is an approval and gives the hash that the card shows, the card's own
  -- arguments still have that hash, no record decides the card, it has not expired, and the
  -- evaluation is in the state in which the card was shown.
  pub decide-IsCleared :
      (answer : Answer) (id by sha : Text) (now : ℕ) (log : Log) (request : Request)
      → (decide args_sha digest answer id by sha now log).0 ≡ runs request
      → (card : Card) × IsCleared card answer id sha now log × (card.request ≡ request)
  decide-IsCleared answer id by sha now log request e =
      decide_on-IsCleared (card_of id (cards log)) answer id by sha now log request refl e
