-- ===== src/Backend/Presence/Sequence.antt =====
-- The sequence of an agent's reports, and reports that are repeated.
use wi_fi_test_orchestrator.Prelude.{
  ℕ, ◌≤◌, ◌≡◌, refl, Bool, true, not, ◌&&◌, ◌||◌, Option, none, some, List, [], ◌∷◌, arith, ◌==◌,
  ==_refl, ltb, is_some, Bool-cases, inl, inr,
}
use wi_fi_test_orchestrator.Prelude.Table.{find, update, find-append}
use wi_fi_test_orchestrator.Backend.Presence.{
  Kind, Db, AgentPresence, Report, PresenceResponse, CapabilityManifest, ManifestDocument,
  ManifestReceipt, ok, presence_of, distance, seconds, reported_row, record_presence,
  compare_presence, store_row, presence, manifest_at, publish_at, publish_manifest, new_manifest,
  digest_differs, barred, agent_is, manifest_is,
}

find-overwrite :
    (q : AgentPresence → Bool) (row x : AgentPresence) (xs : List AgentPresence)
    → q row ≡ true
    → find q xs ≡ some x
    → find q (update q (λ y. row) xs) ≡ some row
unfolding find update
find-overwrite q row x [] t h = absurd (ground (arith, h))
find-overwrite q row x (y ∷ ys) t h = elim (Bool-cases (q y)) [
  | inl e ↦ rw (e, t) refl
  | inr e ↦ rw (e, e) (find-overwrite q row x ys t (ground (arith, h, e)))
]

-- The presence that an agent has after a report was stored.
find-store_row :
    (agent_id : ℕ) (row : AgentPresence) (o : Option AgentPresence) (xs : List AgentPresence)
    → find (presence_of agent_id) xs ≡ o
    → row.agent_id ≡ agent_id
    → find (presence_of agent_id) (store_row agent_id row o xs) ≡ some row
unfolding store_row find
find-store_row k row none xs h e =
    rw (find-append (presence_of k) xs (row ∷ []), h, e, ==_refl k) refl
find-store_row k row (some x) xs h e = find-overwrite (presence_of k) row x xs (rw e (==_refl k)) h

-- What an accepted report leaves.
pub record Recorded (agent_id : ℕ) (report : Report) (db : Db) : Type 0 where
  pub row : AgentPresence
  pub found : find (presence_of agent_id) db.presences ≡ some row
  pub boot : row.boot_id ≡ report.boot_id
  pub at_sequence : row.sequence ≡ report.sequence
  pub digest : row.payload_digest ≡ report.payload_digest

record_presence-Recorded :
    (now : ℕ) (kind : Kind) (ttl poll_after k : ℕ) (report : Report) (o : Option AgentPresence)
    (db : Db) (response : PresenceResponse)
    → find (presence_of k) db.presences ≡ o
    → (record_presence now kind ttl poll_after k report o db).0 ≡ ok response
    → Recorded k report (record_presence now kind ttl poll_after k report o db).1
unfolding record_presence
record_presence-Recorded now kind ttl poll_after k report o db response h accepted =
    elim (Bool-cases (barred (find (agent_is k) db.agents))) [
      | inl e ↦ absurd (ground (arith, accepted, e))
      | inr e ↦ rw e (record {
        row = reported_row now kind ttl k report;
        found = find-store_row k (reported_row now kind ttl k report) o db.presences h refl;
        boot = refl;
        at_sequence = refl;
        digest = refl;
      })
    ]

compare_presence-Recorded :
    (now : ℕ) (kind : Kind) (ttl poll_after k : ℕ) (report : Report) (o : Option AgentPresence)
    (db : Db) (response : PresenceResponse)
    → find (presence_of k) db.presences ≡ o
    → (compare_presence now kind ttl poll_after k report o db).0 ≡ ok response
    → Recorded k report (compare_presence now kind ttl poll_after k report o db).1
unfolding compare_presence
compare_presence-Recorded now kind ttl poll_after k report none db response h accepted =
    record_presence-Recorded now kind ttl poll_after k report none db response h accepted
compare_presence-Recorded now kind ttl poll_after k report (some p) db response h accepted =
    elim (Bool-cases (p.boot_id == report.boot_id && ltb report.sequence p.sequence)) [
      | inl e ↦ absurd (ground (arith, accepted, e))
      | inr e ↦ elim (Bool-cases (p.boot_id == report.boot_id && report.sequence == p.sequence)) [
        | inl e' ↦ elim (Bool-cases (report.payload_digest == p.payload_digest)) [
          | inl e'' ↦
              rw (e, e', e'')
                (record {
                  row = p;
                  found = h;
                  boot = ground (arith, e');
                  at_sequence = ground (arith, e');
                  digest = ground (arith, e'');
                })
          | inr e'' ↦ absurd (ground (arith, accepted, e, e', e''))
        ]
        | inr e' ↦
            rw (e, e')
              (record_presence-Recorded now kind ttl poll_after k report (some p) db response h
                (ground (arith, accepted, e, e')))
      ]
    ]

-- After a report that was accepted the agent has a presence, of the boot and the sequence of the
-- report and with the digest of its payload.
pub presence-Recorded :
    (skew now : ℕ) (kind : Kind) (ttl poll_after agent_id : ℕ) (report : Report) (db : Db)
    (response : PresenceResponse)
    → (presence skew now kind ttl poll_after agent_id report db).0 ≡ ok response
    → Recorded agent_id report (presence skew now kind ttl poll_after agent_id report db).1
unfolding presence
presence-Recorded skew now kind ttl poll_after k report db response h =
    elim (Bool-cases (report.agent_id == k)) [
      | inr e ↦ absurd (ground (arith, h, e))
      | inl e ↦ elim (Bool-cases (ltb (seconds skew) (distance now report.reported_at))) [
        | inl e' ↦ absurd (ground (arith, h, e, e'))
        | inr e' ↦
            elim (Bool-cases (
              digest_differs (find (manifest_is k report.manifest_id) db.manifests)
                report.manifest_digest)) [
                  | inl e'' ↦ absurd (ground (arith, h, e, e', e''))
                  | inr e'' ↦
                      rw (e, e', e'')
                        (compare_presence-Recorded now kind ttl poll_after k report
                          (find (presence_of k) db.presences) db response refl
                          (ground (arith, h, e, e', e'')))
                ]
      ]
    ]

-- A report of the boot that the agent's presence has is accepted at no lower sequence than that.
pub presence_sequence :
    (skew now : ℕ) (kind : Kind) (ttl poll_after agent_id : ℕ) (report : Report) (db : Db)
    (response : PresenceResponse) (p : AgentPresence)
    → find (presence_of agent_id) db.presences ≡ some p
    → p.boot_id ≡ report.boot_id
    → (presence skew now kind ttl poll_after agent_id report db).0 ≡ ok response
    → p.sequence ≤ report.sequence
unfolding presence compare_presence
presence_sequence skew now kind ttl poll_after k report db response p h same accepted =
    ground (arith, h, same, accepted)

publish_at-again :
    (now later k : ℕ) (d : ManifestDocument) (o : Option CapabilityManifest) (db : Db)
    (receipt : ManifestReceipt)
    → find (manifest_at k d.manifest_sequence) db.manifests ≡ o
    → (publish_at now k d o db).0 ≡ ok receipt
    → publish_at later k d
        (find (manifest_at k d.manifest_sequence) (publish_at now k d o db).1.manifests)
        (publish_at now k d o db).1
      ≡ (ok receipt, (publish_at now k d o db).1)
unfolding publish_at find
publish_at-again now later k d (some existing) db receipt h a =
    elim (Bool-cases
      (not (existing.document_digest == d.document_digest) || not (existing.id == d.manifest_id))) [
        | inl e ↦ absurd (ground (arith, a, e))
        | inr e ↦ rw (e, h, e) (ground (arith, a, e))
      ]
publish_at-again now later k d none db receipt h a =
    elim (Bool-cases
      (is_some (find (λ (row : CapabilityManifest). row.id == d.manifest_id) db.manifests))) [
        | inl e ↦ absurd (ground (arith, a, e))
        | inr e ↦
            rw
              (
                e,
                find-append (manifest_at k d.manifest_sequence) db.manifests
                    (new_manifest now k d ∷ []),
                h,
                ==_refl k,
                ==_refl d.manifest_sequence,
                ==_refl d.document_digest,
                ==_refl d.manifest_id,
              )
              (ground (arith, a, e))
      ]

-- A manifest that was accepted is accepted again, at any later time, with the same receipt, and the
-- second time changes no table.
pub publish_manifest_again :
    (now later agent_id : ℕ) (document : ManifestDocument) (db : Db) (receipt : ManifestReceipt)
    → (publish_manifest now agent_id document db).0 ≡ ok receipt
    → publish_manifest later agent_id document (publish_manifest now agent_id document db).1
      ≡ (ok receipt, (publish_manifest now agent_id document db).1)
unfolding publish_manifest
publish_manifest_again now later k d db receipt h = elim (Bool-cases d.valid) [
  | inr e ↦ absurd (ground (arith, h, e))
  | inl e ↦ elim (Bool-cases (d.agent_id == k)) [
    | inr e' ↦ absurd (ground (arith, h, e, e'))
    | inl e' ↦ elim (Bool-cases d.catalog_is_1_0_0) [
      | inr e'' ↦ absurd (ground (arith, h, e, e', e''))
      | inl e'' ↦
          rw (e, e', e'')
            (publish_at-again now later k d (find (manifest_at k d.manifest_sequence) db.manifests)
              db receipt refl (ground (arith, h, e, e', e'')))
    ]
  ]
]
