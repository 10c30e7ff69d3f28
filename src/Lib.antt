-- ===== src/Lib.antt =====
-- onym-audit: the canonical documents, the signatures and the relying client of the audit profile.
--
-- The program publishes and consumes signed JSON documents. Every document passes the strict parser
-- of canonical JSON, its signature is over the canonical text without the signature field, its typed
-- form is checked against a closed vocabulary, and the relying client puts a manifest, an
-- attestation, a status list and a revocation together to a decision. The files follow these parts:
--
--   * Canon (canon/canon.go): `Canon/Value` has the values and the map operations, `Canon/Decode`
--     the parser (Parse), `Canon/Encode` the encoder (Encode, SigningBytes). The theorems stand below
--     them and in `Canon/RoundTrip`. `Utf8` is unicode/utf8 as Parse and escape use it.
--   * Sig (sig/sig.go): `Hex` has keys and digests (KeyOf, Public, Digest), `Base64` signatures as
--     text (DecodeSignature), `Sign` has Sign, Verify and VerifyDetached, `Time` FormatTime and ParseTime.
--   * UriRule (urirule/urirule.go): `Host` is what Check uses of net/url, net and strings, `Check` is
--     Check; `Address` has inet_aton, to say what an accepted host is not.
--   * NetGuard (netguard/netguard.go): Public and Control over addresses as numbers.
--   * Audit (audit/): `Strict` and `Fields` are strict.go and the part of encoding/json it uses;
--     `Terms`, `Manifest`, `Orders` and `Offers` are docs.go; `Attestation` and `Replies` are
--     attestation.go; `Status` is status.go; `Decision` and `Verify` are verify.go. The theorems are
--     in `Epochs` and `Entries` (status lists), `Signatures`, `Matching` and `Opinions` (documents),
--     `Reliance`, `Decisions` and `Finality` (the client). `Build` is BuildStatus with toObject; below
--     it are what the reader makes of its list.
--   * Loose is encoding/json where the program uses it without the strict parser: how members are
--     chosen by folded names, and, in `Scan`, the scanner of json.Unmarshal.
--   * Files is what the program uses of package os on a directory: a list of files by their paths.
--   * Site (site/site.go): WriteSigned, Collect and ResignStatus over an auditor's tree; `Resign` and
--     `Limit` have the theorems.
--   * Hub (hub/hub.go, hub/orders.go, hub/requests.go): the documents offered for a tree and
--     writeFiles; `Publish`, `Revoke` (with the replies of subjects), `Hold` (release and the round of
--     ResignAll), `Intake` (postOrder), `Inbox` (inbox, orderStatus), `Requests` and `Answers` (the
--     requests for proposals and the offers made for them) and `Register` (claim, register) are the
--     handlers, each split into its checks, which end in `Outcome`, and its effects. `Writes`, `Held`, `Written`, `Steps` and
--     `Handled` have the lemmas on single handlers, `Safety`, `Embargo` and `Stuck` the theorems on
--     sequences of calls about an auditor;
--     `Board` is the directory of requests under the calls about any auditor, `Queue` an auditor's
--     inbox under all that is handled for it, and below `Register` is what becomes of a name.
--   * Onymid (onymid/onymid.go): crc16, AccountID and ParseAccountID.
--   * Prelude: native numbers, byte strings, results and their lemmas.
--
-- Strings and byte slices are lists of bytes. An error is the sentinel that errors.Is finds in it;
-- the texts of messages are left out, and so is what only they depend on. A Go map is an association
-- list in the order of its insertion. The parser's position is the rest of its input. A function that
-- changes state through a pointer returns the new state: ParseStatus and Verify return the retained
-- epoch. A time is the number of nanoseconds since the start of the year 0.
--
-- Loops without a structural measure run on fuel: values, members and elements on twice the length of
-- the input and one more, string bodies on its length and one more, the decimal digits of a number on
-- 20, more than a number up to 2^53 has, and the search for a year on the days divided by 365 and one
-- more. For the parser it is a theorem that the fuel is enough, and for the year it follows from the
-- round trip of times.
--
-- SHA-256 and Ed25519 are the operations of a parameter (`Crypto`); the one thing assumed of them, in
-- `IsSigner`, is what crypto/ed25519 documents of a private key. net.SplitHostPort and
-- netip.ParseAddr are parameters of `control`. ParseTime is modelled on the full form that it ends up
-- accepting. strings.ToLower is modelled with the two characters outside ASCII whose lower case lies in it.
--
-- The hub's state is that of one auditor's directories (`Tenant`, with its claim `Place`) and of the
-- directory of requests, a list of files. A handler runs under the auditor's lock, so that a history
-- is a list of calls with their times (`serve`, `perform_all`, `enact_all`). The requests are shared
-- by all auditors: their histories are a relation (`Reach`) whose steps take an auditor in any state,
-- one call after the other, though two auditors have two locks. A reply is its code and texts. The
-- faults of a disk, the limits per address and the decoding of a request's envelope are left out, and
-- so is what a handler tells others after its effects (OnChange, the log). WriteSigned and the epoch
-- that is published go through json.Unmarshal; the other documents of a tree, which the program has
-- parsed or written itself, are read with the strict parser where the program uses encoding/json. What
-- sort.Slice leaves open for equal times is the order of the list. The files that are held
-- are kept in the order of their names, in which they are released.
--
-- Not modelled: SignOrder, SignDoc and CanonicalOf (they marshal typed documents), Summary (the text
-- of a decision), audit/fixtures.go, BuildProfile and BuildManifest of site/, the rest of hub/
-- (listings, static files, the vault, the limiter, and what asks the network), and the packages
-- around these: server, provider, conformance, review, console, agent, stellar and cmd; of onymid/
-- the phrases and the keys derived from them.
pub mod Prelude
pub mod Utf8
pub mod Canon
pub mod Sig
pub mod UriRule
pub mod NetGuard
pub mod Audit
pub mod Files
pub mod Loose
pub mod Site
pub mod Hub
pub mod Onymid
