-- ===== src/Message.antt =====
-- The messages that routers exchange: synergy/service/router/Message.hpp, Message.cpp, MessageHeader.hpp and
-- the object types of protocol/v2 (Route.fbs, Hello.fbs, Proxy.fbs, Claim.fbs, Core.fbs).
-- Numbers are plain ℕ; `Version` and `OS` of a hello are not read by the program and are left out.
use Prim.Native.String.{String}
use synergy_hogsback.Prelude.{ℕ, ◌&&◌, ltb, if◌then◌else◌, List, Option, none, some}

-- One advertised way to a node: the hops in front of it, nearest first.
pub record Route : Type 0 where
  pub dest : ℕ
  pub cost : ℕ
  pub path : List ℕ

pub record RouteAdvertisement : Type 0 where
  pub sender : ℕ
  pub routes : List Route

-- `Message::Body`: the alternatives of the variant, in their order.
pub data Body : Type 0 where
  unknown_message : List ℕ → Body
  hello_message : ℕ → String → Body
  route_advertisement : RouteAdvertisement → Body
  route_revocation : RouteAdvertisement → Body
  proxy_client_connect : String → Body
  server_claim : ℕ → ℕ → Body
  core_message : List ℕ → Body

-- `body_.which()`
unfoldable pub which : Body → ℕ
which (unknown_message _) = 0
which (hello_message _ _) = 1
which (route_advertisement _) = 2
which (route_revocation _) = 3
which (proxy_client_connect _) = 4
which (server_claim _ _) = 5
which (core_message _) = 6

pub record Message : Type 0 where
  pub body : Body
  pub type : ℕ
  pub ttl : ℕ

-- The converting constructor.
unfoldable pub message : Body → Message
message b = record { body = b; type = which b; ttl = 1 }

pub record MessageHeader : Type 0 where
  pub version : ℕ
  pub type : ℕ
  pub unused : ℕ
  pub ttl : ℕ
  pub size : ℕ
  pub source : ℕ
  pub dest : ℕ

-- The destination that every router reads.
abbrev pub broadcast_dest : ℕ
broadcast_dest = 0xFFFF_FFFF

abbrev pub default_header : MessageHeader
default_header = record {
  version = 0;
  type = 0;
  unused = 0;
  ttl = 0;
  size = 0;
  source = 0xFFFF_FFFF;
  dest = 0xFFFF_FFFF;
}

-- `Message::header`; `none` where `numeric_cast` throws.
unfoldable pub header : Message → Option MessageHeader
header m =
    if ltb m.ttl 256 && ltb m.type 256
    then some (record default_header { ttl = m.ttl; type = m.type })
    else none
