-- ===== src/Miekg.antt =====
-- The parts of github.com/miekg/dns that the DNS server uses, as an interface. A message has the
-- fields that the program reads or writes; the others (opcode, flags, sections) are `rest`.
use namedor.Common.{ℕ, Bool, Option, List}
use namedor.Text.{Text}

pub record Question : Type 0 where
  pub name : Text
  pub qtype : ℕ

-- net.IP: nil, 4 bytes, 16 bytes, or a slice of another length.
pub data NetIp : Type 0 where
  nil_ip : NetIp
  bytes_4 : ℕ → NetIp
  bytes_16 : ℕ → NetIp
  odd_length : NetIp

-- An option of the OPT record: a client subnet, or another one.
pub data EdnsOption : Type 0 where
  client_subnet : (family : ℕ) (address : NetIp) → EdnsOption
  other_option : EdnsOption

pub record Msg (RR Rest : Type 0) : Type 0 where
  pub id : ℕ
  pub question : List Question
  pub authoritative : Bool
  pub rcode : ℕ
  pub answer : List RR
  -- the options of the OPT record, if there is one (Msg.IsEdns0)
  pub edns : Option (List EdnsOption)
  pub rest : Rest

pub record Miekg : Type 1 where
  pub RR : Type 0
  pub Rest : Type 0
  -- dns.Fqdn, dns.TypeToString, dns.NewRR
  pub fqdn : Text → Text
  pub type_text : ℕ → Text
  pub new_rr : Text → Option RR
  -- new(dns.Msg).SetReply(r), new(dns.Msg).SetQuestion(name, type)
  pub set_reply : Msg RR Rest → Msg RR Rest
  pub set_question : Text → ℕ → Msg RR Rest
