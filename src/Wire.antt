-- ===== src/Wire.antt =====
-- honey_ns.py, wire handling: one query from its bytes to the bytes of the answer.
--
-- `Site` holds what the module finds in its globals: dnspython, the identity of squatter/base.py,
-- the two exemption lists, `_VERSION_BIND` of the dispatcher and the address parser of ipaddress.
-- Log output is left out. An exception that `handle_wire` does not catch is its result.
pub mod Formerr
pub mod Serialize
pub mod Answered
use Prim.Native.String.{◌++◌ as string_append}
use honeycow.Prelude.{
  ℕ, ◌+◌, ◌*◌, ◌/◌, ◌^◌, Bool, true, false, not, Option, none, some, List, [], ◌∷◌, String, length,
  ◌==◌, if◌then◌else◌, bit_and, bit_or, Result, ok, raise, too_big, ◌>>=◌,
}
use honeycow.Base
use honeycow.Base.{Identity, udp_max}
use honeycow.Dispatch
use honeycow.Dispatch.Handlers.{Handler}
use honeycow.Dns.{Message, Parsed, message, dns_exception, DnsPython}
use honeycow.Dns.Code
use honeycow.Exemptions.{ExemptionList}
use honeycow.SourceExemptions.{SourceExemptionList, Address}

pub data Transport : Type 0 where
  udp tcp : Transport

pub record Site (Name : Type 0) : Type 0 where
  pub dns : DnsPython Name
  pub identity : Identity Name
  pub ip_address : String → Option Address
  pub version_bind : Name
  pub exemptions : ExemptionList Name
  pub source_exemptions : Option SourceExemptionList

-- The dictionary of `_wire_header`.
pub record Header : Type 0 where
  pub id : ℕ
  pub opcode : String
  pub rcode : String
  pub flags : ℕ
  pub qdcount : ℕ

-- Two bytes of `struct.unpack("!HHHHHH", …)`.
abbrev pub unpack : ℕ → ℕ → ℕ
unpack high low = high * 256 + low

-- The tuple that `handle_wire` returns.
pub record Handled (Name : Type 0) : Type 0 where
  pub wire : List ℕ
  pub kind : String
  pub truncated : Bool
  pub query : Option (Message Name)
  pub response : Option (Message Name)
  pub handler : Handler

module _ {Name : Type 0} (d : DnsPython Name) where
  unfoldable pub wire_header : List ℕ → Option Header
  wire_header (i ∷ j ∷ f ∷ g ∷ q ∷ r ∷ _ ∷ _ ∷ _ ∷ _ ∷ _ ∷ _ ∷ rest) =
      let flags = unpack f g in
      some (record {
        id = unpack i j;
        opcode = d.opcode_to_text (bit_and (flags / 2 ^ 11) 0x0f);
        rcode = d.rcode_to_text (bit_and flags 0x0f);
        flags = flags;
        qdcount = unpack q r;
      })
  wire_header _ = none

  -- The message of `_minimal_formerr` for a header.
  unfoldable pub formerr_message : Header → Message Name
  formerr_message header =
      let opcode_bits = bit_and header.flags 0x7800 in
      let rd_bit = bit_and header.flags Code.rd in
      d.set_rcode Code.formerr
        (record (d.new_message header.id) { flags = bit_or (bit_or Code.qr opcode_bits) rd_bit })

  unfoldable pub formerr_wire : Option Header → Result (List ℕ × Option (Message Name))
  formerr_wire none = ok ([], none)
  formerr_wire (some header) = elim (d.to_wire udp_max (formerr_message header)) [
    | none ↦ raise too_big
    | some wire ↦ ok (wire, some (formerr_message header))
  ]

  unfoldable pub minimal_formerr : List ℕ → Result (List ℕ × Option (Message Name))
  minimal_formerr bytes = formerr_wire (wire_header bytes)

  -- `_serialize`; the response comes back as serializing for UDP may have changed it.
  unfoldable pub serialize : Message Name → Transport → Result (List ℕ × Bool × Message Name)
  serialize response udp = Base.serialize_udp d response
  serialize response tcp = do wire ← Base.serialize_tcp d response; ok (wire, false, response)

  -- A response that is serialized outside the `try`.
  unfoldable pub respond :
      Message Name → String → Handler → Transport → Message Name → Result (Handled Name)
  respond query kind handler transport response = do
    (wire, truncated, response) ← serialize response transport
    ok (record {
      wire = wire;
      kind = kind;
      truncated = truncated;
      query = some query;
      response = some response;
      handler = handler;
    })

module _ {Name : Type 0} (site : Site Name) where
  open site use {dns as d, identity, ip_address, version_bind, exemptions, source_exemptions}

  -- The body of the `try` and what follows it.
  unfoldable pub dispatched : Message Name → Transport → String → Result (Handled Name)
  dispatched query transport src_ip = do
    (response, handler) ←
        Dispatch.dispatch d identity ip_address version_bind query exemptions source_exemptions
          src_ip
    (wire, truncated, response) ← serialize d response transport
    ok (record {
      wire = wire;
      kind = d.rcode_to_text (d.rcode response);
      truncated = truncated;
      query = some query;
      response = some response;
      handler = handler;
    })

  -- `except Exception`
  unfoldable pub or_servfail :
      Message Name → Transport → Result (Handled Name) → Result (Handled Name)
  or_servfail query transport (ok handled) = ok handled
  or_servfail query transport (raise e) =
      respond d query "SERVFAIL" Handler.handler_crash transport (Base.servfail d query)

  -- `handle_wire` behind the parse.
  unfoldable pub handle_query : Message Name → Transport → String → Result (Handled Name)
  handle_query query transport src_ip =
      if not (bit_and query.flags Code.qr == 0)
      then ok (record {
        wire = [];
        kind = "DROPPED_QR";
        truncated = false;
        query = none;
        response = none;
        handler = Handler.qr_set;
      })
      else if not (d.opcode query == Code.query)
      then respond d query "NOTIMP" Handler.bad_opcode transport (Base.notimp d query)
      else if not (length query.question == 1)
      then respond d query "FORMERR" Handler.bad_qcount transport
          (d.set_rcode Code.formerr (Base.make_response d query))
      else or_servfail query transport (dispatched query transport src_ip)

  unfoldable pub handle_parsed : List ℕ → Transport → String → Parsed Name → Result (Handled Name)
  handle_parsed bytes transport src_ip (dns_exception name) = do
    (wire, response) ← minimal_formerr d bytes
    ok (record {
      wire = wire;
      kind = string_append "FORMERR (" (string_append name ")");
      truncated = false;
      query = none;
      response = response;
      handler = Handler.parse_error;
    })
  handle_parsed bytes transport src_ip (message query) = handle_query query transport src_ip

  unfoldable pub handle_wire : List ℕ → Transport → String → Result (Handled Name)
  handle_wire bytes transport src_ip = handle_parsed bytes transport src_ip (d.from_wire bytes)
