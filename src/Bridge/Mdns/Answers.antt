-- ===== src/Bridge/Mdns/Answers.antt =====
-- The records of a reply, and what they have to say for a daemon to be found.
use nev_os.Base.{
  ℕ, suc, ◌+◌, ◌^◌, ◌<◌, ◌≤◌, ◌*◌, ◌≡◌, refl, ◌⊎◌, inl, inr, subst, true, false, Option, none, some,
  List, [], ◌∷◌, length, take, arith, All, All-get_or, IsByte, length-take, c_string,
}
use nev_os.Bridge.Mdns.{read_name, name_eq, is_our_instance, first_label}
use nev_os.Bridge.Mdns.Parse.{Found, Seen, seen_zero, be16, is_empty, conclude}

pub name_eq_refl : (a : List ℕ) → name_eq a a ≡ true
name_eq_refl [] = refl
name_eq_refl (x ∷ xs) = ground (arith, name_eq_refl xs)

-- Record number `k` starts at `i`, the first at `from`: past the name stand ten bytes, of which the last
-- two count the data that follows.
pub data Starts (pkt : List ℕ) (from : ℕ) : ℕ → ℕ → Type 0 where
  here : Starts pkt from 0 from
  next :
      {k i after : ℕ} {text : List ℕ}
      → Starts pkt from k i
      → read_name pkt i 128 ≡ some (after, text)
      → Starts pkt from (suc k) (after + 10 + be16 pkt (after + 8))

-- One of the packet's `total` records has this name, type and data.
pub record HasRecord (pkt : List ℕ) (from total : ℕ) (name : List ℕ) (type rdata rdlen : ℕ)
    : Type 0 where
  pub number : ℕ
  pub place : ℕ
  pub after : ℕ
  pub text : List ℕ
  pub starts : Starts pkt from number place
  pub counted : number < total
  pub reads : read_name pkt place 128 ≡ some (after, text)
  pub name_is : c_string text ≡ name
  pub type_is : be16 pkt after ≡ type
  pub data_at : after + 10 ≡ rdata
  pub data_length : be16 pkt (after + 8) ≡ rdlen
  pub inside : rdata + rdlen ≤ length pkt

-- An SRV record (type 33) of `owner`, which gives the port and names the host.
pub record HasSrv (pkt : List ℕ) (from total : ℕ) (owner : List ℕ) (port : ℕ) (host : List ℕ)
    : Type 0 where
  pub rdata : ℕ
  pub rdlen : ℕ
  pub found_in : HasRecord pkt from total owner 33 rdata rdlen
  pub port_is : be16 pkt (rdata + 4) ≡ port
  pub past : ℕ
  pub text : List ℕ
  pub host_reads : read_name pkt (rdata + 6) 128 ≡ some (past, text)
  pub host_is : c_string text ≡ host

-- An A record (type 1) of `owner` with four bytes, the address.
pub record HasA (pkt : List ℕ) (from total : ℕ) (owner : List ℕ) (ipv4 : ℕ) : Type 0 where
  pub rdata : ℕ
  pub found_in : HasRecord pkt from total owner 1 rdata 4
  pub ipv4_is : be16 pkt rdata * 2 ^ 16 + be16 pkt (rdata + 2) ≡ ipv4

-- A port was only taken from the SRV record of an instance of the service, which is the one that the reply
-- names, and an address only from an A record.
pub record IsOurs (pkt : List ℕ) (from total : ℕ) (seen : Seen) : Type 0 where
  pub port_in : seen.port < 2 ^ 16
  pub ipv4_in : seen.ipv4 < 2 ^ 32
  pub owner :
      (seen.port ≡ 0)
      ⊎ ((name : List ℕ) × (is_our_instance name ≡ true)
          × (name_eq name seen.instance_name ≡ true)
          × HasSrv pkt from total name seen.port seen.target)
  pub address : (seen.ipv4 ≡ 0) ⊎ HasA pkt from total seen.a_name seen.ipv4

pub ours-nonempty :
    (name text : List ℕ)
    → is_our_instance name ≡ true
    → name_eq name text ≡ true
    → is_empty text ≡ false
ours-nonempty [] [] h e = absurd (ground (arith, h))
ours-nonempty [] (x ∷ xs) h e = refl
ours-nonempty (x ∷ xs) [] h e = absurd (ground (arith, e))
ours-nonempty (x ∷ xs) (y ∷ ys) h e = refl

pub be16-lt : (pkt : List ℕ) (i : ℕ) → All IsByte pkt → be16 pkt i < 2 ^ 16
be16-lt pkt i h =
    let a = All-get_or IsByte pkt i 0 h (omega arith) in
    let b = All-get_or IsByte pkt (i + 1) 0 h (omega arith) in omega (arith, a, b)

-- What is to be connected to, and where the packet says so.
pub record IsDaemon (pkt : List ℕ) (from total : ℕ) (found : Found) : Type 0 where
  pub port_some : 0 < found.port
  pub port_in : found.port < 2 ^ 16
  pub ipv4_some : 0 < found.ipv4
  pub ipv4_in : found.ipv4 < 2 ^ 32
  pub owner : List ℕ
  pub shown : List ℕ
  pub host : List ℕ
  pub addressed : List ℕ
  pub ours : is_our_instance owner ≡ true
  pub same : name_eq owner shown ≡ true
  pub srv : HasSrv pkt from total owner found.port host
  pub a : HasA pkt from total addressed found.ipv4
  pub matches : is_empty host ≡ false → is_empty addressed ≡ false → name_eq host addressed ≡ true
  pub named : found.name ≡ take 47 (first_label shown)
  pub fits : length found.name < 48

module _ (pkt : List ℕ) (from total : ℕ) where
  abbrev pub Ours : Seen → Type 0
  Ours = IsOurs pkt from total

  abbrev pub Keeps : Option Seen → Type 0
  Keeps none = Unit {0}
  Keeps (some seen) = Ours seen

  abbrev pub Follows : Option (ℕ × Seen) → Type 0
  Follows none = Unit {0}
  Follows (some (after, seen)) = Ours seen

  pub none_seen : Ours seen_zero
  none_seen = record {
    port_in = omega arith;
    ipv4_in = omega arith;
    owner = inl refl;
    address = inl refl;
  }

  pub conclude-IsDaemon :
      (seen : Seen) (found : Found)
      → Ours seen
      → conclude seen ≡ some found
      → IsDaemon pkt from total found
  unfolding conclude
  conclude-IsDaemon seen found h e =
      let more : (0 < seen.port) × (0 < seen.ipv4) = ground (arith, e) in
      elim (h.owner) [
        | inl zero_port ↦ absurd (omega (arith, more, zero_port))
        | inr (name, ours, same, srv) ↦ elim (h.address) [
          | inl no_address ↦ absurd (omega (arith, more, no_address))
          | inr a ↦
              let is : record {
                ipv4 = seen.ipv4;
                port = seen.port;
                name = take 47 (first_label seen.instance_name);
              }
                  ≡ found =
                ground (arith, e) in
              subst (IsDaemon pkt from total) is (record {
                port_some = more.0;
                port_in = h.port_in;
                ipv4_some = more.1;
                ipv4_in = h.ipv4_in;
                owner = name;
                shown = seen.instance_name;
                host = seen.target;
                addressed = seen.a_name;
                ours = ours;
                same = same;
                srv = srv;
                a = a;
                matches = λ e1 e2. ground (arith, e, e1, e2);
                named = refl;
                fits = omega (arith, length-take 47 (first_label seen.instance_name));
              })
        ]
      ]

  pub after_record :
      (past : ℕ) (found : Option Seen)
      → Keeps found
      → Follows
          (elim found as (λ x. Option (ℕ × Seen)) [ none ↦ none | some seen ↦ some (past, seen) ])
  after_record past none k = tt
  after_record past (some seen) k = k
