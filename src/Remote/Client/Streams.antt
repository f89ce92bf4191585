-- ===== src/Remote/Client/Streams.antt =====
-- What the reader gives to the consumer of a subtree's stream.
use clayers.Prelude.{
  ◌≡◌, refl, sym, ap, ◌∙◌, inl, inr, Bool, true, false, not, ◌&&◌, ◌||◌, some, List, [], ◌∷◌, ◌++◌,
  contains, contains-without, ◌==◌, ==_iff, ==_refl, nat_eq, option_eq, if◌then◌else◌, arith,
  Bool-cases,
}
use mathlib.Core.List.{append_assoc, append-nil}
use clayers.Prelude.Dict.{lookup, lookup-insert}
use clayers.Remote.Protocol.{MessageId, ServerMessage, reply_id, subtree_item, subtree_end, failed}
use clayers.Remote.Client.{Client, in_channel, stream_message, dispatch, receive_all}
use clayers.Remote.Client.Reader.{dispatch-IsUnread, settled}

-- Whether a message closes its stream.
abbrev pub closes : ServerMessage → Bool
closes (subtree_end i) = true
closes (failed i text) = true
closes _ = false

-- What a message puts on the channel.
abbrev pub on_channel : ServerMessage → List ServerMessage
on_channel (subtree_item i h o) = subtree_item i h o ∷ []
on_channel (failed i text) = failed i text ∷ []
on_channel _ = []

-- What a stream's channel gets of what arrives, up to the message that closes it.
abbrev pub stream_for : MessageId → List ServerMessage → List ServerMessage
stream_for id [] = []
stream_for id (m ∷ ms) =
    let rest = stream_for id ms in
    if reply_id m == some id then on_channel m ++ (if closes m then [] else rest) else rest

abbrev pub closed_for : MessageId → List ServerMessage → Bool
closed_for id [] = false
closed_for id (m ∷ ms) = (reply_id m == some id && closes m) || closed_for id ms

-- What one message does to its open stream.
record IsStreamed (id : MessageId) (m : ServerMessage) (before after : Client) : Type 0 where
  pending : after.pending ≡ before.pending
  streams : contains after.streams id ≡ not (closes m)
  streamed :
      in_channel (lookup id after.streamed) ≡ in_channel (lookup id before.streamed) ++ on_channel m

stream_message-IsStreamed :
    (id : MessageId) (m : ServerMessage) (c : Client)
    → contains c.streams id ≡ true
    → IsStreamed id m c (stream_message id m c)
stream_message-IsStreamed id (subtree_item i h o) c open_stream = record {
  pending = refl;
  streams = open_stream;
  streamed = ground (
    arith,
    ==_refl id,
    lookup-insert id id (in_channel (lookup id c.streamed) ++ subtree_item i h o ∷ []) c.streamed,
  );
}
stream_message-IsStreamed id (subtree_end i) c open_stream = record {
  pending = refl;
  streams = ground (arith, contains-without id id c.streams, ==_refl id);
  streamed = sym (append-nil (in_channel (lookup id c.streamed)));
}
stream_message-IsStreamed id (failed i text) c open_stream = record {
  pending = refl;
  streams = ground (arith, contains-without id id c.streams, ==_refl id);
  streamed = ground (
    arith,
    ==_refl id,
    lookup-insert id id (in_channel (lookup id c.streamed) ++ failed i text ∷ []) c.streamed,
  );
}
stream_message-IsStreamed id _ c open_stream = record {
  pending = refl;
  streams = open_stream;
  streamed = sym (append-nil (in_channel (lookup id c.streamed)));
}

pub receive_all-stream :
    (id : MessageId) (ms : List ServerMessage) (c : Client)
    → contains c.streams id ≡ true
    → contains c.pending id ≡ false
    → (in_channel (lookup id (receive_all ms c).streamed)
        ≡ in_channel (lookup id c.streamed) ++ stream_for id ms)
      × (contains (receive_all ms c).streams id ≡ not (closed_for id ms))
unfolding receive_all dispatch
receive_all-stream id [] c open_stream nobody =
    (sym (append-nil (in_channel (lookup id c.streamed))), open_stream)
receive_all-stream id (m ∷ ms) c open_stream nobody = elim (Bool-cases (reply_id m == some id)) [
  | inl mine ↦ elim (Bool-cases (closes m)) [
    | inl last ↦
        let over =
          settled id ms next (ap (λ l. contains l id) step.pending ∙ nobody)
            (step.streams ∙ ap not last) in
        rw (mine, last)
          (
            ap (λ d. in_channel (lookup id (receive_all ms d).streamed)) (given mine)
                ∙ ap in_channel over.streamed
                ∙ step.streamed
                ∙ ap (λ l. before ++ l) (sym (append-nil (on_channel m))),
            ap (λ d. contains (receive_all ms d).streams id) (given mine)
                ∙ over.streams
                ∙ step.streams
                ∙ ap not last,
          )
    | inr more ↦
        let rest =
          receive_all-stream id ms next (step.streams ∙ ap not more)
            (ap (λ l. contains l id) step.pending ∙ nobody) in
        rw (mine, more)
          (
            ap (λ d. in_channel (lookup id (receive_all ms d).streamed)) (given mine)
                ∙ rest.0
                ∙ ap (λ l. l ++ stream_for id ms) step.streamed
                ∙ append_assoc before (on_channel m) (stream_for id ms),
            ap (λ d. contains (receive_all ms d).streams id) (given mine) ∙ rest.1,
          )
  ]
  | inr other ↦
      let step =
        dispatch-IsUnread id m c (λ e. ground (arith, e, other, ==_iff (reply_id m) (some id))) in
      let rest =
        receive_all-stream id ms (dispatch m c) (step.streams ∙ open_stream)
          (step.pending ∙ nobody) in
      rw other (rest.0 ∙ ap (λ o. in_channel o ++ stream_for id ms) step.streamed, rest.1)
]
  where
    next : Client
    next = stream_message id m c

    before : List ServerMessage
    before = in_channel (lookup id c.streamed)

    step : IsStreamed id m c next
    step = stream_message-IsStreamed id m c open_stream

    given : (reply_id m == some id) ≡ true → dispatch m c ≡ next
    given mine = rw ((==_iff (reply_id m) (some id)).0 mine, open_stream) refl
