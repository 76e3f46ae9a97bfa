-- ===== src/Bridge/Mdns/Replies.antt =====
-- That a daemon is found only where the records of the packet say so.
use nev_os.Base.{
  if◌then◌else◌, ℕ, zero, suc, ◌+◌, ◌<◌, ◌≡◌, refl, inl, inr, subst, true, false, not, ◌&&◌, Option,
  none, some, List, length, arith, All, IsByte, Option-cases, Bool-cases, if_elim, ltb, ◌==◌,
  c_string,
}
use nev_os.Bridge.Mdns.{read_name, name_eq, is_our_instance, service}
use nev_os.Bridge.Mdns.Parse.{
  Found, Seen, seen_zero, be16, is_empty, skip_questions, on_ptr, on_srv, on_a, on_record,
  one_record, records, conclude, parse,
}
use nev_os.Bridge.Mdns.Answers.{
  Starts, here, next, HasRecord, IsOurs, IsDaemon, name_eq_refl, ours-nonempty, be16-lt, Keeps,
  Follows, none_seen, conclude-IsDaemon, after_record,
}

module _ (pkt : List ℕ) (bytes : All IsByte pkt) (from total : ℕ) where
  abbrev OursIn : Seen → Type 0
  OursIn = IsOurs pkt from total

  abbrev KeepsOurs : Option Seen → Type 0
  KeepsOurs = Keeps pkt from total

  abbrev FollowsOurs : Option (ℕ × Seen) → Type 0
  FollowsOurs = Follows pkt from total

  -- The name of an instance is only overwritten while there is none, and then there is no port.
  renamed :
      (seen : Seen) (text : List ℕ)
      → OursIn seen
      → is_empty seen.instance_name ≡ true
      → OursIn (record seen { instance_name = text })
  renamed seen text h e = elim (h.owner) [
    | inl none_yet ↦ record {
      port_in = h.port_in;
      ipv4_in = h.ipv4_in;
      owner = inl none_yet;
      address = h.address;
    }
    | inr (name, ours, same, srv) ↦
        absurd (ground (arith, e, ours-nonempty name seen.instance_name ours same))
  ]

  on_ptr-IsOurs :
      (name : List ℕ) (rdata : ℕ) (seen : Seen)
      → OursIn seen
      → KeepsOurs (on_ptr pkt name rdata seen)
  unfolding on_ptr
  on_ptr-IsOurs name rdata seen h =
      if_elim KeepsOurs (name_eq name service && is_empty seen.instance_name) _ (some seen)
        (λ yes. elim (Option-cases (read_name pkt rdata 128)) [
          | inl e ↦ rw e tt
          | inr (a, e) ↦ rw e (renamed seen (c_string a.1) h (ground (arith, yes)))
        ])
        (λ no. h)

  chosen :
      (name : List ℕ) (seen : Seen)
      → is_our_instance name ≡ true
      → (not (is_empty seen.instance_name) && not (name_eq name seen.instance_name)) ≡ false
      → name_eq name (if is_empty seen.instance_name then name else seen.instance_name) ≡ true
  chosen name seen ours ok =
      if_elim (λ t. name_eq name t ≡ true) (is_empty seen.instance_name) name seen.instance_name
        (λ first. name_eq_refl name) (λ later. ground (arith, ok, later))

  on_srv-IsOurs :
      (name : List ℕ) (rdata rdlen : ℕ) (seen : Seen)
      → HasRecord pkt from total name 33 rdata rdlen
      → OursIn seen
      → KeepsOurs (on_srv pkt name rdata rdlen seen)
  unfolding on_srv
  on_srv-IsOurs name rdata rdlen seen rec h =
      if_elim KeepsOurs (ltb rdlen 7) none _ (λ short. tt)
        (λ whole.
          if_elim KeepsOurs (not (is_our_instance name)) (some seen) _ (λ other. h)
            (λ ours.
              if_elim KeepsOurs
                (not (is_empty seen.instance_name) && not (name_eq name seen.instance_name))
                (some seen) _ (λ another. h)
                (λ ok. elim (Option-cases (read_name pkt (rdata + 6) 128)) [
                  | inl e ↦ rw e tt
                  | inr (a, e) ↦
                      let mine : is_our_instance name ≡ true = ground (arith, ours) in
                      rw e (record {
                        port_in = be16-lt pkt (rdata + 4) bytes;
                        ipv4_in = h.ipv4_in;
                        owner = inr (
                          name,
                          mine,
                          chosen name seen mine ok,
                          record {
                            rdata = rdata;
                            rdlen = rdlen;
                            found_in = rec;
                            port_is = refl;
                            past = a.0;
                            text = a.1;
                            host_reads = e;
                            host_is = refl;
                          },
                        );
                        address = h.address;
                      })
                ])))

  on_a-IsOurs :
      (name : List ℕ) (rdata rdlen : ℕ) (seen : Seen)
      → HasRecord pkt from total name 1 rdata rdlen
      → OursIn seen
      → KeepsOurs (on_a pkt name rdata rdlen seen)
  unfolding on_a
  on_a-IsOurs name rdata rdlen seen rec h =
      let a = be16-lt pkt rdata bytes in
      let b = be16-lt pkt (rdata + 2) bytes in
      if_elim KeepsOurs (rdlen == 4 && seen.ipv4 == 0) _ (some seen)
        (λ yes.
          let four : rdlen ≡ 4 = ground (arith, yes) in
          record {
            port_in = h.port_in;
            ipv4_in = omega (arith, a, b);
            owner = h.owner;
            address = inr (record {
              rdata = rdata;
              found_in = subst (λ n. HasRecord pkt from total name 1 rdata n) four rec;
              ipv4_is = refl;
            });
          })
        (λ no. h)

  on_record-IsOurs :
      (name : List ℕ) (type rdata rdlen : ℕ) (seen : Seen)
      → HasRecord pkt from total name type rdata rdlen
      → OursIn seen
      → KeepsOurs (on_record pkt name type rdata rdlen seen)
  unfolding on_record
  on_record-IsOurs name type rdata rdlen seen rec h =
      if_elim KeepsOurs (type == 12) (on_ptr pkt name rdata seen) _
        (λ ptr. on_ptr-IsOurs name rdata seen h)
        (λ no.
          if_elim KeepsOurs (type == 33) (on_srv pkt name rdata rdlen seen) _
            (λ srv.
              on_srv-IsOurs name rdata rdlen seen
                (subst (λ t. HasRecord pkt from total name t rdata rdlen) (ground (arith, srv)) rec)
                h)
            (λ no.
              if_elim KeepsOurs (type == 1) (on_a pkt name rdata rdlen seen) (some seen)
                (λ a.
                  on_a-IsOurs name rdata rdlen seen
                    (subst (λ t. HasRecord pkt from total name t rdata rdlen) (ground (arith, a))
                      rec)
                    h)
                (λ no. h)))

  one_record-IsOurs :
      (k i : ℕ) (seen : Seen)
      → Starts pkt from k i
      → k < total
      → OursIn seen
      → FollowsOurs (one_record pkt i seen)
  unfolding one_record
  one_record-IsOurs k i seen at counted h = elim (Option-cases (read_name pkt i 128)) [
    | inl e ↦ rw (one_record, e) tt
    | inr (a, e) ↦
        let rdlen = be16 pkt (a.0 + 8) in
        let found = on_record pkt (c_string a.1) (be16 pkt a.0) (a.0 + 10) rdlen seen in
        rw (one_record, e)
          (if_elim FollowsOurs (ltb (length pkt) (a.0 + 10)) none _ (λ short. tt)
            (λ head.
              if_elim FollowsOurs (ltb (length pkt) (a.0 + 10 + rdlen)) none _ (λ cut. tt)
                (λ whole. after_record pkt from total (a.0 + 10 + rdlen) found (
                  on_record-IsOurs (c_string a.1) (be16 pkt a.0) (a.0 + 10) rdlen seen
                    (record {
                      number = k;
                      place = i;
                      after = a.0;
                      text = a.1;
                      starts = at;
                      counted = counted;
                      reads = e;
                      name_is = refl;
                      type_is = refl;
                      data_at = refl;
                      data_length = refl;
                      inside = ground (arith, whole);
                    })
                    h))))
  ]

  -- Where the record after this one starts.
  one_record-Starts :
      (k i : ℕ) (seen : Seen) (a : ℕ × Seen)
      → Starts pkt from k i
      → one_record pkt i seen ≡ some a
      → Starts pkt from (suc k) a.0
  unfolding one_record
  one_record-Starts k i seen a at e = elim (Option-cases (read_name pkt i 128)) [
    | inl q ↦ absurd (ground (arith, e, q))
    | inr (b, q) ↦
        let past : b.0 + 10 + be16 pkt (b.0 + 8) ≡ a.0 = ground (arith, e, q) in
        subst (Starts pkt from (suc k)) past (next at q)
  ]

  records-IsOurs :
      (n k i : ℕ) (seen : Seen)
      → k + n ≡ total
      → Starts pkt from k i
      → OursIn seen
      → KeepsOurs (records n pkt i seen)
  unfolding records
  records-IsOurs zero k i seen count at h = h
  records-IsOurs (suc n) k i seen count at h =
      let kept = one_record-IsOurs k i seen at (omega (arith, count)) h in
      elim (Option-cases (one_record pkt i seen)) [
        | inl e ↦ rw (records, e) tt
        | inr (a, e) ↦
            rw (records, e)
              (records-IsOurs n (suc k) a.0 a.1 (omega (arith, count))
                (one_record-Starts k i seen a at e) (subst FollowsOurs e kept))
      ]

module _ (pkt : List ℕ) (bytes : All IsByte pkt) where
  -- In a reply that is bytes and in which a daemon is found, the port is the one of an SRV record of the
  -- packet, whose name is an instance of the service; the address is the one of an A record of four bytes,
  -- whose name is the SRV record's host where both are there; and the name is the first label, cut to 47
  -- bytes, of the instance that the reply names, which is the SRV record's but for case. The port and the
  -- address are no zero and fit their types. The records are the ones after the questions, as many as the
  -- header counts.
  pub parse-IsDaemon :
      (found : Found)
      → parse pkt ≡ some found
      → (from : ℕ) × (skip_questions (be16 pkt 4) pkt 12 ≡ some from)
        × IsDaemon pkt from (be16 pkt 6 + be16 pkt 8 + be16 pkt 10) found
  unfolding parse
  parse-IsDaemon found e =
      let first = skip_questions (be16 pkt 4) pkt 12 in
      let total = be16 pkt 6 + be16 pkt 8 + be16 pkt 10 in
      elim (Bool-cases (ltb (length pkt) 12)) [
        | inl k ↦ absurd (ground (arith, e, k))
        | inr k ↦ elim (Option-cases first) [
          | inl k1 ↦ absurd (ground (arith, e, k, k1))
          | inr (from, k1) ↦
              let h =
                records-IsOurs pkt bytes from total total 0 from seen_zero (omega arith) here
                  (none_seen pkt from total) in
              elim (Option-cases (records total pkt from seen_zero)) [
                | inl k2 ↦ absurd (ground (arith, e, k, k1, k2))
                | inr (seen, k2) ↦
                    let last : conclude seen ≡ some found = ground (arith, e, k, k1, k2) in
                    (
                      from,
                      k1,
                      conclude-IsDaemon pkt from total seen found
                          (subst (Keeps pkt from total) k2 h) last,
                    )
              ]
        ]
      ]
