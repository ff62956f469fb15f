-- ===== src/Api/Posting/Copies.antt =====
-- internal/api/settings_handlers.go and internal/config/config.go: the configuration in memory, in
-- the file and in the engines after settings are posted.
use flowguard_lite.Prelude.{
  Bool, true, false, none, List, [], ◌∷◌, ◌≡◌, ◌≢◌, ◌⊎◌, refl, Bool-cases, Option-cases, inl, inr,
  ltb, length,
}
use flowguard_lite.Prelude.Bytes.{Bytes}
use flowguard_lite.Prelude.Text.{Text}
use flowguard_lite.Prelude.Atoi.{atoi}
use flowguard_lite.Net.{Parsers}
use flowguard_lite.Config.{Config, validate}
use flowguard_lite.Auth.Password.{Result, ok, failed, Crypto, hash_password}
use flowguard_lite.Api.Posting.{
  SettingsPayload, SettingsError, Daemon, done, bad_request, no_hash, not_persisted, fill_defaults,
  check_settings, merged, persist, propagate, change_password, post_settings,
}

-- What comes with one request: the salt, whether the file can be written, and the settings.
pub record Post : Type 0 where
  pub random : Result Bytes
  pub written : Bool
  pub payload : SettingsPayload

unfoldable pub post_all : Parsers → Crypto → List Post → Daemon → Daemon
post_all p c [] d = d
post_all p c (r ∷ rs) d = post_all p c rs (post_settings p c r.random r.written r.payload d).0

-- There is a file, it can be loaded again, and the engines were told what it says.
pub record IsSound (p : Parsers) (d : Daemon) : Type 0 where
  pub kept : d.has_file ≡ true
  pub loadable : validate p atoi d.disk ≡ none
  pub followed : d.engines ≡ propagate d.disk

-- What the last step comes to.
persist-cases :
    (p : Parsers) (written : Bool) (d : Daemon)
    → ((d.has_file ≡ false)
        × (persist p written d ≡ (record d { engines = propagate d.memory }, done)))
      ⊎ ((persist p written d ≡ (d, not_persisted))
          ⊎ ((validate p atoi d.memory ≡ none)
              × (persist p written d
                  ≡ (record d { disk = d.memory; engines = propagate d.memory }, done))))
unfolding persist
persist-cases p written d = elim (Bool-cases d.has_file) [
  | inr no_file ↦ inl (no_file, rw (no_file) refl)
  | inl file ↦ inr (elim (Option-cases (validate p atoi d.memory)) [
    | inr (e, bad) ↦ inl (rw (file, bad) refl)
    | inl good ↦ elim (Bool-cases written) [
      | inr fails ↦ inl (rw (file, good, fails) refl)
      | inl works ↦ inr (good, rw (file, good, works) refl)
    ]
  ])
]

persist-IsSound :
    (p : Parsers) (written : Bool) (d : Daemon) → IsSound p d → IsSound p (persist p written d).0
persist-IsSound p written d h = elim (persist-cases p written d) [
  | inl (no_file, same) ↦ absurd (cc (h.kept, no_file))
  | inr (inl same) ↦ rw (same) h
  | inr (inr (good, same)) ↦ rw (same) (record { kept = h.kept; loadable = good; followed = refl })
]

-- Success means that what is in memory was written, if there is a file.
persist_done :
    (p : Parsers) (written : Bool) (d : Daemon)
    → d.has_file ≡ true
    → ((persist p written d).1 ≢ done)
      ⊎ ((persist p written d).0.disk ≡ (persist p written d).0.memory)
persist_done p written d file = elim (persist-cases p written d) [
  | inl (no_file, same) ↦ absurd (cc (file, no_file))
  | inr (inl same) ↦ inl (λ h. cc (rw (same) at h))
  | inr (inr (good, same)) ↦ inr (rw (same) refl)
]

Result-cases : (r : Result Text) → ((e : Text) × (r ≡ failed e)) ⊎ ((hash : Text) × (r ≡ ok hash))
Result-cases (failed e) = inl (e, refl)
Result-cases (ok hash) = inr (hash, refl)

-- Setting the password changes nothing else.
change_password-cases :
    (c : Crypto) (random : Result Bytes) (password : Bytes) (d : Daemon)
    → ((e : Text) × (change_password c random password d ≡ failed e))
      ⊎ ((hash : Text) × (change_password c random password d
            ≡ ok (record d { admin_password_hash = hash })))
unfolding change_password
change_password-cases c random password d = elim (Bool-cases (ltb 0 (length password))) [
  | inr blank ↦ inr (d.admin_password_hash, rw (blank) refl)
  | inl given ↦ elim (Result-cases (hash_password c random password)) [
    | inl (e, bad) ↦ inl (e, rw (given, bad) refl)
    | inr (hash, good) ↦ inr (hash, rw (given, good) refl)
  ]
]

-- A request does not get to the end, or is the last step on the merged configuration.
post_settings-cases :
    (p : Parsers) (c : Crypto) (random : Result Bytes) (written : Bool) (payload : SettingsPayload)
    (d : Daemon)
    → ((e : SettingsError) × (post_settings p c random written payload d ≡ (d, bad_request e)))
      ⊎ ((post_settings p c random written payload d
            ≡ (record d { memory = merged d.memory payload }, no_hash))
          ⊎ ((hash : Text) × (post_settings p c random written payload d
                ≡ persist p written
                    (record d { memory = merged d.memory payload; admin_password_hash = hash }))))
unfolding post_settings merged
post_settings-cases p c random written payload d =
    elim (Option-cases (check_settings p payload (fill_defaults d.memory payload))) [
      | inr (e, bad) ↦ inl (e, rw (bad, post_settings) refl)
      | inl good ↦
          elim (change_password-cases c random payload.admin_password
            (record d { memory = merged d.memory payload })) [
              | inl (e, bad) ↦ inr (inl (rw (good, bad, post_settings) refl))
              | inr (hash, changed) ↦ inr (inr (hash, rw (good, changed, post_settings) refl))
            ]
    ]

-- Soundness does not read the memory or the password.
unread :
    (p : Parsers) (d : Daemon) (m : Config) (hash : Text)
    → IsSound p d
    → IsSound p (record d { memory = m; admin_password_hash = hash })
unread p d m hash h = record { kept = h.kept; loadable = h.loadable; followed = h.followed }

post_settings-IsSound :
    (p : Parsers) (c : Crypto) (random : Result Bytes) (written : Bool) (payload : SettingsPayload)
    (d : Daemon)
    → IsSound p d
    → IsSound p (post_settings p c random written payload d).0
post_settings-IsSound p c random written payload d h =
    elim (post_settings-cases p c random written payload d) [
      | inl (e, same) ↦ rw (same) h
      | inr (inl same) ↦ rw (same) (unread p d (merged d.memory payload) d.admin_password_hash h)
      | inr (inr (hash, same)) ↦ rw (same) (
          persist-IsSound p written
            (record d { memory = merged d.memory payload; admin_password_hash = hash })
            (unread p d (merged d.memory payload) hash h))
    ]

post_settings_done :
    (p : Parsers) (c : Crypto) (random : Result Bytes) (written : Bool) (payload : SettingsPayload)
    (d : Daemon)
    → d.has_file ≡ true
    → ((post_settings p c random written payload d).1 ≢ done)
      ⊎ ((post_settings p c random written payload d).0.disk
          ≡ (post_settings p c random written payload d).0.memory)
post_settings_done p c random written payload d file =
    elim (post_settings-cases p c random written payload d) [
      | inl (e, same) ↦ inl (λ h. cc (rw (same) at h))
      | inr (inl same) ↦ inl (λ h. cc (rw (same) at h))
      | inr (inr (hash, same)) ↦ rw (same) (
          persist_done p written
            (record d { memory = merged d.memory payload; admin_password_hash = hash }) file)
    ]

post_all-IsSound_rec :
    (p : Parsers) (c : Crypto) (posts : List Post) (d : Daemon)
    → IsSound p d
    → IsSound p (post_all p c posts d)
unfolding post_all
post_all-IsSound_rec p c [] d h = h
post_all-IsSound_rec p c (r ∷ rs) d h =
    post_all-IsSound_rec p c rs (post_settings p c r.random r.written r.payload d).0
      (post_settings-IsSound p c r.random r.written r.payload d h)

-- Start with a file that `Validate` accepts and engines whose copies are what it says. After any
-- settings are posted, in whatever order, refused or not, this still holds; and one more request is
-- either not answered with success or leaves the file with the configuration that is in memory.
pub post_all-IsSound :
    (p : Parsers) (c : Crypto) (posts : List Post) (d : Daemon) (r : Post)
    → IsSound p d
    → IsSound p (post_all p c posts d)
      × (((post_settings p c r.random r.written r.payload (post_all p c posts d)).1 ≢ done)
          ⊎ ((post_settings p c r.random r.written r.payload (post_all p c posts d)).0.disk
              ≡ (post_settings p c r.random r.written r.payload (post_all p c posts d)).0.memory))
post_all-IsSound p c posts d r h =
    let sound = post_all-IsSound_rec p c posts d h in
    (sound, post_settings_done p c r.random r.written r.payload (post_all p c posts d) sound.kept)
