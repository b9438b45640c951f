-- ===== src/Dns.antt =====
-- The DNS vocabulary of the `domain` crate as far as the tools name it: record types, classes and
-- response codes are the names that the source mentions, and `other` for all the rest.
use native.Mathlib.Decide.{ℕ_discrete}
use dnst.Base.{
  ℕ, List, true, ◌==◌, ◌+◌, ◌-◌, ◌≡◌, refl, sym, ap, ◌∙◌, ◌↔◌, if◌then◌else◌, Eq, arith,
}

pub data Rtype : Type 0 where
  a ns soa aaaa ds rrsig nsec dnskey nsec3 nsec3param cds cdnskey zonemd any : Rtype
  other : ℕ → Rtype

pub data Class : Type 0 where
  in_class none_class any_class : Class
  other_class : ℕ → Class

pub data Rcode : Type 0 where
  noerror servfail notimp : Rcode
  other_rcode : ℕ → Rcode

-- The fields of SOA record data, over the library's type of names.
pub record Soa (Name : Type 0) : Type 0 where
  pub mname : Name
  pub rname : Name
  pub serial : ℕ
  pub refresh : ℕ
  pub retry : ℕ
  pub expire : ℕ
  pub minimum : ℕ

-- Record data: the SOA data that the code looks into, the data of an unknown type given by its
-- octets, and any other data as its type and octets.
pub data RecordData (Name : Type 0) : Type 0 where
  soa_data : Soa Name → RecordData Name
  unknown : Rtype → List ℕ → RecordData Name
  known : Rtype → List ℕ → RecordData Name

pub record Record (Name : Type 0) : Type 0 where
  pub owner : Name
  pub class_ : Class
  pub ttl : ℕ
  pub rdata : RecordData Name

abbrev pub rtype_of : {Name : Type 0} → RecordData Name → Rtype
rtype_of (soa_data _) = Rtype.soa
rtype_of (unknown t _) = t
rtype_of (known t _) = t

pub Rtype-discrete : Discrete Rtype
Rtype-discrete = hlevel ℕ_discrete

-- A number for each type: its code, with the unnamed types behind the named ones.
abbrev pub rtype_code : Rtype → ℕ
rtype_code a = 1
rtype_code ns = 2
rtype_code soa = 6
rtype_code aaaa = 28
rtype_code ds = 43
rtype_code rrsig = 46
rtype_code nsec = 47
rtype_code dnskey = 48
rtype_code nsec3 = 50
rtype_code nsec3param = 51
rtype_code cds = 59
rtype_code cdnskey = 60
rtype_code zonemd = 63
rtype_code any = 255
rtype_code (other n) = n + 256

abbrev code_rtype : ℕ → Rtype
code_rtype n =
    if n == 1
    then a
    else if n == 2
    then ns
    else if n == 6
    then soa
    else if n == 28
    then aaaa
    else if n == 43
    then ds
    else if n == 46
    then rrsig
    else if n == 47
    then nsec
    else if n == 48
    then dnskey
    else if n == 50
    then nsec3
    else if n == 51
    then nsec3param
    else if n == 59
    then cds
    else if n == 60
    then cdnskey
    else if n == 63
    then zonemd
    else if n == 255
    then any
    else other (n - 256)

code_rtype-rtype_code : (t : Rtype) → code_rtype (rtype_code t) ≡ t
code_rtype-rtype_code t = elim t as (λ t. code_rtype (rtype_code t) ≡ t) [
  | other n ↦ ground arith
  | _ ↦ refl
]

pub rtype_codes_iff : (t u : Rtype) → ((rtype_code t == rtype_code u) ≡ true) ↔ (t ≡ u)
rtype_codes_iff t u = (
  λ e. sym (code_rtype-rtype_code t) ∙ ap code_rtype (same e) ∙ code_rtype-rtype_code u,
  λ e. ap (λ x. rtype_code t == rtype_code x) (sym e) ∙ self,
)
  where
    same : (rtype_code t == rtype_code u) ≡ true → rtype_code t ≡ rtype_code u
    same e = ground (arith, e)

    self : (rtype_code t == rtype_code t) ≡ true
    self = ground arith

instance abbrev pub rtype_eq : Eq Rtype
rtype_eq = record { beq = λ t u. rtype_code t == rtype_code u; beq_iff = rtype_codes_iff }
