-- ===== src/Remote/Client/Reader.antt =====
-- What the reader gives to whom.
use clayers.Prelude.{
  ◌≡◌, ◌≢◌, refl, ap, ◌∙◌, inl, inr, true, false, Option, none, some, List, [], ◌∷◌, ◌++◌, map,
  contains, without, contains-without, ◌==◌, ==_iff, ==_refl, nat_eq, option_eq, if◌then◌else◌,
  arith, Bool-cases, Option-cases,
}
use clayers.Prelude.Dict.{lookup, insert, lookup-insert}
use clayers.Error.{Error, Result, ok, err}
use clayers.Remote.Protocol.{MessageId, ServerMessage, reply_id, subtree_item, subtree_end, failed}
use clayers.Remote.Client.{
  Client, in_channel, push_item, close_stream, stream_message, numbered, dispatch, receive_all,
  read_loop,
}

-- The first message with the number.
abbrev pub first_for : MessageId → List ServerMessage → Option ServerMessage
first_for id [] = none
first_for id (m ∷ ms) = if reply_id m == some id then some m else first_for id ms

-- What one turn does to a number whose stream is not open.
pub record IsUnread (id : MessageId) (before after : Client) : Type 0 where
  pub pending : contains after.pending id ≡ contains before.pending id
  pub replies : lookup id after.replies ≡ lookup id before.replies
  pub streams : contains after.streams id ≡ contains before.streams id
  pub streamed : lookup id after.streamed ≡ lookup id before.streamed

unread : (id : MessageId) (c : Client) → IsUnread id c c
unread id c = record { pending = refl; replies = refl; streams = refl; streamed = refl }

push_item-IsUnread :
    (id other : MessageId) (m : ServerMessage) (c : Client)
    → other ≢ id
    → IsUnread id c (push_item other m c)
push_item-IsUnread id other m c apart = record {
  pending = refl;
  replies = refl;
  streams = refl;
  streamed = ground (
    arith,
    apart,
    ==_iff other id,
    lookup-insert id other (in_channel (lookup other c.streamed) ++ m ∷ []) c.streamed,
  );
}

close_stream-IsUnread :
    (id other : MessageId) (c : Client) → other ≢ id → IsUnread id c (close_stream other c)
close_stream-IsUnread id other c apart = record {
  pending = refl;
  replies = refl;
  streams = ground (arith, apart, ==_iff other id, contains-without other id c.streams);
  streamed = refl;
}

IsUnread-trans :
    (id : MessageId) (a b c : Client) → IsUnread id a b → IsUnread id b c → IsUnread id a c
IsUnread-trans id a b c p q = record {
  pending = q.pending ∙ p.pending;
  replies = q.replies ∙ p.replies;
  streams = q.streams ∙ p.streams;
  streamed = q.streamed ∙ p.streamed;
}

stream_message-IsUnread :
    (id other : MessageId) (m : ServerMessage) (c : Client)
    → other ≢ id
    → IsUnread id c (stream_message other m c)
stream_message-IsUnread id other (subtree_item i h o) c apart =
    push_item-IsUnread id other (subtree_item i h o) c apart
stream_message-IsUnread id other (subtree_end i) c apart = close_stream-IsUnread id other c apart
stream_message-IsUnread id other (failed i text) c apart =
    IsUnread-trans id c (close_stream other c)
      (push_item other (failed i text) (close_stream other c))
      (close_stream-IsUnread id other c apart)
      (push_item-IsUnread id other (failed i text) (close_stream other c) apart)
stream_message-IsUnread id other _ c apart = unread id c

numbered-IsUnread :
    (id other : MessageId) (m : ServerMessage) (c : Client)
    → other ≢ id
    → IsUnread id c (numbered other m c)
numbered-IsUnread id other m c apart = elim (Bool-cases (contains c.streams other)) [
  | inl streaming ↦ rw streaming (stream_message-IsUnread id other m c apart)
  | inr not_streaming ↦ elim (Bool-cases (contains c.pending other)) [
    | inl waiting ↦
        rw (not_streaming, waiting)
          (record {
            pending = ground (arith, apart, ==_iff other id, contains-without other id c.pending);
            replies = ground (arith, apart, ==_iff other id, lookup-insert id other m c.replies);
            streams = refl;
            streamed = refl;
          })
    | inr nobody ↦ rw (not_streaming, nobody) (unread id c)
  ]
]

-- A message that carries another number, or none.
pub dispatch-IsUnread :
    (id : MessageId) (m : ServerMessage) (c : Client)
    → reply_id m ≢ some id
    → IsUnread id c (dispatch m c)
unfolding dispatch
dispatch-IsUnread id m c apart = elim (Option-cases (reply_id m)) [
  | inl none_such ↦
      rw none_such (record { pending = refl; replies = refl; streams = refl; streamed = refl })
  | inr (other, carried) ↦
      rw carried (numbered-IsUnread id other m c (λ same. apart (carried ∙ ap some same)))
]

-- Nobody waits for the number.
pub settled :
    (id : MessageId) (ms : List ServerMessage) (c : Client)
    → contains c.pending id ≡ false
    → contains c.streams id ≡ false
    → IsUnread id c (receive_all ms c)
unfolding receive_all dispatch
settled id [] c over quiet = unread id c
settled id (m ∷ ms) c over quiet = elim (Bool-cases (reply_id m == some id)) [
  | inl mine ↦ rw (dropped ((==_iff (reply_id m) (some id)).0 mine)) (settled id ms c over quiet)
  | inr other ↦
      let step =
        dispatch-IsUnread id m c (λ e. ground (arith, e, other, ==_iff (reply_id m) (some id))) in
      IsUnread-trans id c (dispatch m c) (receive_all ms (dispatch m c)) step
        (settled id ms (dispatch m c) (step.pending ∙ over) (step.streams ∙ quiet))
]
  where
    dropped : reply_id m ≡ some id → dispatch m c ≡ c
    dropped e = rw (e, quiet, over) refl

-- A request that waits, with no stream of its number open, gets the first message that carries its
-- number, whatever else arrives before, between and after.
pub receive_all-reply :
    (id : MessageId) (ms : List ServerMessage) (c : Client)
    → contains c.pending id ≡ true
    → contains c.streams id ≡ false
    → lookup id c.replies ≡ none
    → lookup id (receive_all ms c).replies ≡ first_for id ms
unfolding receive_all dispatch
receive_all-reply id [] c waiting quiet empty = empty
receive_all-reply id (m ∷ ms) c waiting quiet empty = elim (Bool-cases (reply_id m == some id)) [
  | inl mine ↦ rw mine (
      ap (λ d. lookup id (receive_all ms d).replies)
        (given ((==_iff (reply_id m) (some id)).0 mine))
      ∙ here ms)
  | inr other ↦
      let step =
        dispatch-IsUnread id m c (λ e. ground (arith, e, other, ==_iff (reply_id m) (some id))) in
      rw other (
        receive_all-reply id ms (dispatch m c) (step.pending ∙ waiting) (step.streams ∙ quiet)
          (step.replies ∙ empty))
]
  where
    next : Client
    next = record c { pending = without id c.pending; replies = insert id m c.replies }

    given : reply_id m ≡ some id → dispatch m c ≡ next
    given e = rw (e, quiet, waiting) refl

    here : (ms : List ServerMessage) → lookup id (receive_all ms next).replies ≡ some m
    here ms =
        let over : contains next.pending id ≡ false =
          ground (arith, contains-without id id c.pending, ==_refl id) in
        (settled id ms next over quiet).replies
        ∙ ground (arith, lookup-insert id id m c.replies, ==_refl id)

-- What arrives until the transport fails is received, and nothing after it.
pub read_loop_lem :
    (ms : List ServerMessage) (e : Error) (rest : List (Result ServerMessage)) (c : Client)
    → read_loop (map ok ms ++ err e ∷ rest) c ≡ receive_all ms c
unfolding read_loop receive_all
read_loop_lem [] e rest c = refl
read_loop_lem (m ∷ ms) e rest c = read_loop_lem ms e rest (dispatch m c)
