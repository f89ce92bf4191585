-- ===== src/Examples/Remote.antt =====
-- A client of the server.
use clayers.Prelude.{◌≡◌, ◌≢◌, refl, some, none, List, [], ◌∷◌, nat_eq, string_eq, true, false}
use clayers.Prelude.Dict.{lookup, insert}
use clayers.Error.{out_of_fuel}
use clayers.Object.{text}
use clayers.Store.Memory
use clayers.Store.Memory.{MemoryStore, MemoryTransaction}
use clayers.Remote.Protocol.{ServerMessage, reply_id, ref_updated, ref_set, done}
use clayers.Remote.Server.{register_connection, subscribe, note_repo, add_subscriber}
use clayers.Remote.Server.Handlers.{handle, handle_begin_tx, resolve_store}
use clayers.Remote.Server.Local.{served}
use clayers.Remote.Client.{
  Client, Wire, new, receive_all, get, contains_object, get_by_inclusive_hash, get_ref, list_refs,
  set_ref, delete_ref, cas_ref,
}
use clayers.Remote.Client.Reader.{first_for, receive_all-reply}
use clayers.Remote.Client.Connected.{connected, are_notes, IsFresh, at_distance}
use clayers.Remote.Client.Agreement.{Agrees, remote_store_lem}
use clayers.Remote.Client.Subtree
use clayers.Remote.Client.Subtree.{remote_subtree_lem}
use clayers.Remote.Client.Transaction.{RemoteTransaction, put, commit, rollback}
use clayers.Remote.Client.Transaction.Agreed.{is_ok, remote_transaction_lem}
use clayers.Examples.Data.{clone}
use clayers.Examples.Serving.{texts, Local, two, writing, listener, open_transaction}

abbrev notes : List ServerMessage
notes = ref_updated "docs" "refs/heads/main" none (some 5) ∷ []

notes-quiet : are_notes notes ≡ true
unfolding reply_id
notes-quiet = refl

abbrev client : Client
client = new "docs"

client-IsFresh : IsFresh client
unfolding lookup
client-IsFresh = record { pending = λ id e. refl; streams = λ id e. refl; replies = λ id e. refl }

-- Two requests wait; the second is answered first, and a notification comes between.
abbrev waiting : Client
waiting = record client { pending = 1 ∷ 2 ∷ [] }

abbrev arriving : List ServerMessage
arriving = ref_set 2 ∷ ref_updated "docs" "refs/heads/main" none (some 5) ∷ done 1 ∷ []

receive_all-reply_example : lookup 1 (receive_all arriving waiting).replies ≡ first_for 1 arriving
unfolding lookup
receive_all-reply_example = receive_all-reply 1 arriving waiting refl refl refl

abbrev wire : Wire Local
wire = connected served texts listener notes

remote_store_lem_example :
    (Agrees texts (get wire 5 client two) (Memory.get clone 5) two.repos
      × Agrees texts (contains_object wire 5 client two) (Memory.contains clone 5) two.repos
      × Agrees texts
          (get_by_inclusive_hash wire 5 client two)
          (Memory.get_by_inclusive_hash clone 5)
          two.repos
      × Agrees texts (get_ref wire "HEAD" client two) (Memory.get_ref clone "HEAD") two.repos
      × Agrees texts (list_refs wire "HEAD" client two) (Memory.list_refs clone "HEAD") two.repos)
    × (Agrees texts
          (set_ref wire "HEAD" 5 client two)
          (Memory.set_ref "HEAD" 5 clone).0
          (insert "docs" (Memory.set_ref "HEAD" 5 clone).1 two.repos)
        × Agrees texts
            (delete_ref wire "HEAD" client two)
            (Memory.delete_ref "HEAD" clone).0
            (insert "docs" (Memory.delete_ref "HEAD" clone).1 two.repos)
        × Agrees texts
            (cas_ref wire "HEAD" none 5 client two)
            (Memory.cas_ref "HEAD" none 5 clone).0
            (insert "docs" (Memory.cas_ref "HEAD" none 5 clone).1 two.repos))
unfolding lookup register_connection
remote_store_lem_example =
    remote_store_lem served texts listener notes client two clone "HEAD" none 5 notes-quiet
      client-IsFresh refl

remote_subtree_lem_example : (Subtree.subtree wire 3 client two).0 ≡ record {
  items = (served.subtree clone 3).items;
  ending = at_distance texts (served.subtree clone 3).ending;
}
unfolding lookup register_connection
remote_subtree_lem_example =
    remote_subtree_lem served texts listener notes 3 client two clone notes-quiet client-IsFresh
      refl

abbrev transaction : RemoteTransaction
transaction = record { tx_id = 1; finished = false }

remote_transaction_lem_example :
    (((put wire 9 (text (record { content = "x" })) transaction client writing).0
        ≡ at_distance texts (Memory.put 9 (text (record { content = "x" })) Memory.begin).0)
      × (lookup 1
            (put wire 9 (text (record { content = "x" })) transaction client writing).3.transactions
          ≡ some (record open_transaction {
            tx = (Memory.put 9 (text (record { content = "x" })) Memory.begin).1;
          })))
    × (((commit wire transaction client writing).0
          ≡ at_distance texts (Memory.commit Memory.begin clone).0)
        × ((commit wire transaction client writing).3.repos
            ≡ insert "docs" (Memory.commit Memory.begin clone).2 writing.repos)
        × ((commit wire transaction client writing).1.finished
            ≡ is_ok (Memory.commit Memory.begin clone).0))
    × (((rollback wire transaction client writing).0
          ≡ at_distance texts (Memory.rollback Memory.begin).0)
        × (lookup 1 (rollback wire transaction client writing).3.transactions ≡ none)
        × ((Memory.rollback Memory.begin).0 ≢ out_of_fuel
            → (rollback wire transaction client writing).1.finished ≡ true))
unfolding register_connection subscribe note_repo add_subscriber lookup insert handle
    handle_begin_tx resolve_store
remote_transaction_lem_example =
    remote_transaction_lem served texts listener notes transaction open_transaction 9
      (text (record { content = "x" })) client writing clone notes-quiet client-IsFresh refl refl
      refl refl
