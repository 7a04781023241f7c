-- ===== src/Smtp/PoolTests.antt =====
-- A pool of two senders, at concrete inputs: email/smtpemail/smtp_sender.go.
use blocky_cloud.Prelude.{ℕ, Bool, true, false, List, [], ◌∷◌, Option, none, ◌≡◌, refl}
use blocky_cloud.Text.{codes}
use blocky_cloud.Smtp.Session.{
  Command, dial_tcp, new_client, hello, authenticate, own, dial, secure, say_hello,
  authenticate_with, choose_auth,
}
use blocky_cloud.Smtp.Message.{new_message, prepare}
use blocky_cloud.Smtp.Sender.{DeliveryEvent}
use blocky_cloud.Smtp.Pool.{
  SenderPool, unfilled, put, filled, fill_pool, new_sender_pool, Incoming, close_panicked,
  already_closed, close_pool, send_batch,
}
use blocky_cloud.Smtp.MessageTests.{plain, plain_encode, letter}
use blocky_cloud.Smtp.Tests.{dialer, takes_all, no_extension}
use blocky_cloud.Smtp.PoolPanics.{nils, world, first_outcome, pool_panics}

abbrev no_digit : ℕ → Bool
no_digit c = false

abbrev no_topic : DeliveryEvent → Option ℕ
no_topic e = none

abbrev first_message : Incoming
first_message = record { fresh = new_message; message = letter; ctx_first = true }

abbrev two_clients : SenderPool
two_clients = record { clients = false ∷ false ∷ []; ctx = none; cancel = false; is_closed = false }

abbrev one_dial : List Command
one_dial = authenticate own ∷ hello (codes "me") ∷ new_client ∷ dial_tcp ∷ []

abbrev two_dials : List Command
two_dials = authenticate own ∷ hello (codes "me") ∷ new_client ∷ dial_tcp ∷ one_dial

new_sender_pool-two :
    new_sender_pool takes_all no_extension 2 dialer [] ≡ filled two_clients two_dials
unfolding new_sender_pool fill_pool put unfilled dial say_hello secure authenticate_with choose_auth
new_sender_pool-two = refl

pool_panics_example :
    (two_clients.clients ≡ nils 2)
    × (send_batch takes_all no_extension no_digit plain plain_encode plain_encode no_topic dialer
          (first_message ∷ [])
          (world two_clients two_dials)
        ≡ (
          first_outcome (prepare plain plain_encode plain_encode new_message letter),
          world two_clients two_dials,
        ))
    × ((close_pool takes_all no_extension 3 (world two_clients two_dials)).0 ≡ close_panicked)
    × ((close_pool takes_all no_extension 3
          (close_pool takes_all no_extension 3 (world two_clients two_dials)).1).0
        ≡ already_closed)
pool_panics_example =
    pool_panics takes_all no_extension no_digit plain plain_encode plain_encode no_topic 2 dialer []
      two_dials two_clients first_message [] 3 3 new_sender_pool-two
