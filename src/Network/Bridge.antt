-- ===== src/Network/Bridge.antt =====
-- hotstuff/consensus/src/network.rs and config.rs: `HotstuffNetworkBridge`, and the protocol under which
-- its gossip engine talks to other nodes. The engine itself and the network's service are outside.
use Prim.Native.String as Text
use substrate_hot_stuff.Prelude.{ℕ, ◌*◌, List, [], Option, none, some, String}
use substrate_hot_stuff.Primitives.{Hash, ViewNumber}
use substrate_hot_stuff.Network.{GossipValidator}
use substrate_hot_stuff.Network

abbrev pub hotstuff_protocol_name : String
hotstuff_protocol_name = "/hotstuff/1"

-- `standard_name`; `bytes2hex` is `array_bytes::bytes2hex("", …)`, `fork_id` that of the specification.
unfoldable pub standard_name : (Hash → String) → Hash → Option String → String
standard_name bytes2hex genesis_hash fork_id =
    Text.◌++◌ (chain_prefix fork_id) hotstuff_protocol_name
  where
    chain_prefix : Option String → String
    chain_prefix none = Text.◌++◌ "/" (bytes2hex genesis_hash)
    chain_prefix (some fork_id) =
        Text.◌++◌ "/" (Text.◌++◌ (bytes2hex genesis_hash) (Text.◌++◌ "/" fork_id))

-- `NonReservedPeerMode`
pub data NonReservedPeerMode : Type 0 where
  accept deny : NonReservedPeerMode

-- `NonDefaultSetConfig`, with the fields of its `SetConfig`; no handshake is set.
pub record NonDefaultSetConfig : Type 0 where
  pub notifications_protocol : String
  pub fallback_names : List String
  pub max_notification_size : ℕ
  pub in_peers : ℕ
  pub out_peers : ℕ
  pub reserved_nodes : List ℕ
  pub non_reserved_mode : NonReservedPeerMode

abbrev pub hotstuff_peers_set_config : String → NonDefaultSetConfig
hotstuff_peers_set_config protocol_name = record {
  notifications_protocol = protocol_name;
  fallback_names = [];
  max_notification_size = 1024 * 1024;
  in_peers = 0;
  out_peers = 0;
  reserved_nodes = [];
  non_reserved_mode = deny;
}

-- The bridge: the protocol that its engine was made for, and the validator, which the engine shares.
pub record HotstuffNetworkBridge : Type 0 where
  pub protocol_name : String
  pub gossip_validator : GossipValidator

abbrev pub new : String → HotstuffNetworkBridge
new protocol_name = record { protocol_name = protocol_name; gossip_validator = Network.new }

abbrev pub set_view : HotstuffNetworkBridge → ViewNumber → HotstuffNetworkBridge
set_view bridge view = record bridge {
  gossip_validator = Network.set_view bridge.gossip_validator view;
}
