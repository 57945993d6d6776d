-- ===== src/Lib.antt =====
-- Certio, a certificate authority with an HTTP API, a CLI and an ACME server: a model of the part
-- of it that decides what is certified, revoked and answered, with its correctness properties.
--
-- The program. internal/service holds the operations that the HTTP handlers (internal/server), the
-- CLI (internal/cli) and the scheduler (internal/schedule) call. It keeps its state in a database
-- through the repositories of internal/store, and makes certificates with internal/pki. An
-- operation reads rows, decides, writes rows, records an audit entry, and, after a revocation, has
-- the authority's revocation list published again.
--
-- The files.
--   Prelude: names of the libraries, Boolean tests, list and option helpers.
--   Text: strings as lists of code points, and what the code uses of Go's `strings`. Case and white
--     space are those of ASCII.
--   Pki: internal/pki. San is san.go (`SAN`, `SANSet`), Constraints is constraints.go
--     (`NameConstraints`), Profile is profile.go, Subject subject.go, Keys the names of algorithms
--     in keys.go, Sign `SignPublicKey` of sign.go with the checks of ca.go, and Ca the making and
--     the import of an authority's certificate of ca.go; Sign/Within, San/Dns, San/Sets
--     and Constraints/Within, Constraints/Permits, Constraints/Admits and
--     Constraints/Sets hold their properties.
--   Store: internal/store. Models has the rows of models.go and models_acme.go, with the columns
--     that a modelled operation reads; Table is a table as the list of its rows; Exec is an action
--     on the database, and Exec/Triple the rules to reason about one; Repos has the repositories of
--     repo_pki.go, repo_acme.go and (users, tokens, sessions, the identity provider) repo_auth.go,
--     one function per method (`CertificateRepo.GetBySerial` is `Certificates.get_by_serial`).
--   Service: internal/service. Scope is scope.go; Loading is `LoadCA` of service.go; Crl
--     is `GenerateCRL` of authority.go;
--     Certificates is the part of certificate.go about certificates that are there (`Revoke`,
--     `ReleaseHold`, `UpdateCertificate`, `DeleteCertificate`, `AuthorizeKeyDownload`,
--     `RefreshCertificateStatuses`), with its invariants in Certificates/Invariant and
--     Certificates/Permanent and sequences of requests in Certificates/Requests; Issue is
--     `checkNameConstraints` and `persistCertificate` of certificate.go; Ocsp is ocsp.go; Acme is
--     the state of challenges and orders of acme.go, Acme/Orders a new order, Acme/Csr the check of
--     a signing request; TwoFactor is twofactor.go with the check of a code of
--     internal/crypto/totp.go. Auth is auth.go: tokens and the steps of a sign-in, with Auth/Access
--     for who a request comes from (`Auth` and `resolve` of
--     internal/server/middleware/middleware.go, `AuthenticateAPIToken`, `RevokeSession`),
--     Auth/Accounts for accounts and API tokens, Auth/Administered for what account requests keep,
--     Auth/Factor for what a sign-in checks and Auth/SignedOut for ended sessions. Issuance is
--     `Issue` of certificate.go, with what `LoadCA` reads in Issuance/Lookups and what an issuance
--     that returns has done in Issuance/Issued; Issuance/Renewal is `Renew`, with the deployment of the new certificate as
--     an argument. Authorities is authority.go: Authorities/Creation has `CreateAuthority` and
--     `ImportAuthority`, Authorities/Renewal `RenewAuthority`, and Authorities/Slugs `Slugify` and
--     `uniqueSlug` of service.go. OAuth is oauth.go, the sign-in with an identity provider:
--     OAuth/States the pending sign-ins of `oauthStateStore`, OAuth/Documents the reading of a
--     profile, OAuth/Settings the settings of the provider, OAuth/Provider what the provider is
--     asked for, OAuth/Resolution the account that a profile is for; OAuth/Accounts and
--     OAuth/SignIn hold what a sign-in checks, and OAuth/Administered what it keeps.
--   Server: internal/server. RateLimit is `RateLimiter` and Numbers `itoa` and `formatSeconds` of
--     middleware/middleware.go; RateLimit/Reference has a limiter for one key to compare it with.
--   Config is internal/config/config.go: the checks of the settings that were loaded.
--   The modules called Tests apply the properties to concrete inputs.
--
-- State and failure. The database is the record `World` of Store/Exec, which also holds the pending
-- sign-ins that the service keeps in memory. An action takes it to a result or an error and the
-- tables that are left: what was written before an error stays written, except in a transaction,
-- which restores the tables. The driver may fail any query: the list `faults` of the world says
-- which of the coming queries it fails, and a property that quantifies over worlds holds for every
-- such list. Requests are served one after another; interleavings of two requests are not modelled.
-- Times are numbers of seconds, and the clock, generated identifiers and tokens are arguments.
--
-- Loops. All are structural recursions on lists, except the walk from an authority to its root
-- (`AuthorityRepo.Chain`), which has the bound of sixteen rounds that the code gives it, the search
-- for a free slug (`uniqueSlug`), which has the 98 rounds that the code gives it, the draws of a
-- serial number (`GenerateSerial`), of which there are at most eight as in the code, and the digits
-- of a number (`itoa`), which have the twenty bytes of the code's buffer, enough for every int.
--
-- Parameters. crypto/x509 and the keyring are the record `Engine` of Service/Crl, with `Keyring`
-- of Service/Loading, for revocation lists, and `X509` of Pki/Sign and `Provider` of
-- Service/Issuance for certificates, the OCSP codec and signer `Responder` of Service/Ocsp, the
-- parsers of net, net/mail and net/url `Parsers` of Pki/San and `Networks` of Pki/Constraints,
-- the cryptography of a second factor `Authenticator` of Service/TwoFactor, the codec of web
-- tokens `Jwt` of Service/Auth, HTTP, JSON and the keyring of a sign-in with an identity
-- provider `Idp` of Service/OAuth/Provider, the making of keys and the reading of PEM
-- `CaProvider` of Pki/Ca, the parser of a database's URL an argument of Config, the hash of a
-- password and the digest of an API token arguments of Service/Auth, the ACME key digest and the
-- proof of a name arguments of Service/Acme. The deployment of a renewed certificate is an
-- argument of Service/Issuance/Renewal, and the property of a renewal says what it assumes of
-- it. The property of the expiry of a renewed root assumes that a certificate that crypto/x509
-- makes has the expiry of its template. No property assumes anything about the others.
--
-- Not modelled: signing of requests, the encodings of keys and bundles (the rest of internal/pki);
-- registration, finalization and revocation over ACME and its JWS layer (internal/acme); the
-- scheduler; deployment, notification, export and metrics; the rest of the HTTP layer, the reading
-- of settings and the CLI. Texts of errors, log lines, metrics and lists for display are left out
-- of what is modelled.
pub mod Prelude
pub mod Text
pub mod Pki
pub mod Store
pub mod Service
pub mod Server
pub mod Config
