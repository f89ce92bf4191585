-- ===== src/Remote/Server/Race.antt =====
-- `Server::subscribe` in two steps, with `Server::disconnect` of the same connection between them: no
-- lock is held from the one to the other (crates/clayers-repo/src/store/remote/server.rs).
use clayers.Prelude.{
  ◌≡◌, refl, String, Bool, true, false, none, List, contains, with_member, contains-with_member,
  ==_refl, nat_eq, string_eq, arith, Option-cases, inl, inr, ◌∙◌, ap,
}
use clayers.Prelude.Dict.{lookup, remove, lookup-insert, lookup-remove}
use clayers.Store.Lawful.{is_some}
use clayers.Remote.Server.{
  ConnectionId, Server, members, repos_of, note_repo, add_subscriber, subscribe, disconnect,
}
use clayers.Remote.Server.Consistent.{IsConsistent, subscribe-IsConsistent, disconnect-IsConsistent}

module _ {S T : Type 0} (conn : ConnectionId) (repo : String) (sv : Server S T) where
  abbrev pub is_subscriber : Server S T → Bool
  is_subscriber sv = contains (members (lookup repo sv.subscribers)) conn

  unfoldable pub raced : Server S T
  raced = add_subscriber conn repo (disconnect conn (note_repo conn repo sv).1)

  left-disconnect :
      (before : Server S T)
      → (lookup conn (disconnect conn before).connections ≡ none)
        × (IsConsistent before → is_subscriber (disconnect conn before) ≡ false)
  unfolding disconnect
  left-disconnect before =
      let gone : lookup conn (remove conn before.connections) ≡ none =
        ground (arith, lookup-remove conn conn before.connections, ==_refl conn) in
      (
        gone,
        λ good.
            (disconnect-IsConsistent conn before good).agrees conn repo
            ∙ ap (λ o. contains (repos_of o) repo) gone,
      )

  joined-add_subscriber :
      (before : Server S T)
      → ((add_subscriber conn repo before).connections ≡ before.connections)
        × (is_subscriber (add_subscriber conn repo before) ≡ true)
  unfolding add_subscriber
  joined-add_subscriber before =
      let ids : List ConnectionId = members (lookup repo before.subscribers) in
      (
        refl,
        ground (
          arith,
          ==_refl repo,
          ==_refl conn,
          contains-with_member conn conn ids,
          lookup-insert repo repo (with_member conn ids) before.subscribers,
        ),
      )

  pub raced-subscriber :
      is_some (lookup conn sv.connections) ≡ true
      → contains (repos_of (lookup conn sv.connections)) repo ≡ false
      → IsConsistent sv
      → (is_subscriber (disconnect conn (subscribe conn repo sv)) ≡ false)
        × ((note_repo conn repo sv).0 ≡ true)
        × (lookup conn raced.connections ≡ none)
        × (is_subscriber raced ≡ true)
  unfolding raced note_repo
  raced-subscriber here unknown good =
      let halfway : Server S T = (note_repo conn repo sv).1 in
      (
        (left-disconnect (subscribe conn repo sv)).1 (subscribe-IsConsistent conn repo sv good),
        inserted,
        ap (lookup conn) (joined-add_subscriber (disconnect conn halfway)).0
            ∙ (left-disconnect halfway).0,
        (joined-add_subscriber (disconnect conn halfway)).1,
      )
    where
      inserted : (note_repo conn repo sv).0 ≡ true
      inserted = elim (Option-cases (lookup conn sv.connections)) [
        | inl gone ↦ ground (arith, gone, here)
        | inr (state, there) ↦ rw there ground (arith, there, unknown)
      ]
