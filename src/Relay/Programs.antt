-- ===== src/Relay/Programs.antt =====
-- What the four programs pass on.
use git.Base.{◌≡◌, refl, true, List}
use git.Base.Bytes.{Bytes}
use git.Io.{sent_to}
use git.Relay.Loop.{
  Round, wfd, Style, relay_main, pls, pzs, admin, client_123, pls_style, pzs_style, admin_style,
  client_123_style,
}
use git.Relay.Forwarding.{IsQuiet, active, passed_on, relay_loop-passed_on}

relay_main-passed_on :
    (style : Style) (greeting : Bytes)
    → IsQuiet style
    → (rounds : List Round)
    → sent_to wfd (relay_main style greeting true rounds).acts ≡ passed_on (active rounds)
unfolding relay_main sent_to
relay_main-passed_on style greeting q rounds = relay_loop-passed_on style q rounds

-- Once its FIFOs are open, each of the four programs sends its peer one text for each round in which
-- standard input is ready, in order, up to and with the round that ends the loop, and nothing else: the
-- line typed, or at the end of the input once more what the peer has sent in that round, and an empty text
-- if it has sent nothing.
pub programs-passed_on :
    (rounds : List Round) (pid : Bytes)
    → (sent_to wfd (pls true rounds).acts ≡ passed_on (active rounds))
      × (sent_to wfd (pzs true rounds).acts ≡ passed_on (active rounds))
      × (sent_to wfd (admin true rounds).acts ≡ passed_on (active rounds))
      × (sent_to wfd (client_123 pid true rounds).acts ≡ passed_on (active rounds))
unfolding pls pzs admin client_123 sent_to
programs-passed_on rounds pid = (
  relay_main-passed_on pls_style _ (record { on_peer = λ b. refl; around = refl }) rounds,
  relay_main-passed_on pzs_style _ (record { on_peer = λ b. refl; around = refl }) rounds,
  relay_main-passed_on admin_style _ (record { on_peer = λ b. refl; around = refl }) rounds,
  relay_main-passed_on (client_123_style pid) _ (record { on_peer = λ b. refl; around = refl })
      rounds,
)
