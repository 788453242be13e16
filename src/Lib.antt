-- ===== src/Lib.antt =====
-- LabView shows the compose stacks of a home lab: it scans their files, concludes what holds of
-- the whole fleet, and serves the result behind a gate. Modelled are the rules of its server.
--
-- Common: Go's strings as byte lists, maps as association lists, and the lemmas that every part
-- shares.
--
-- Access (labview/internal/access): Username and Throttle are username.go and throttle.go,
-- where the throttle is a record and each method a function to its next state. Session and
-- Revocations are session.go: a signer is a record with its set of signed-out identifiers;
-- HMAC, SHA-256, base64url and JSON are the record Codec, with the laws that their
-- documentation states. Cookies is the rest of session.go. Gate is gate.go: a request goes in,
-- and an answer comes out that serves or refuses it. Gate.Login is login.go: an attempt reads
-- the posture, asks the throttle, and mints with the signer. Session.Toy is a codec that meets
-- the laws. Passwd is passwd.go, the file of accounts and its reader. Postures is posture.go:
-- which sign-in methods may be used, and so whether the gate enforces.
--
-- Cache (labview/internal/cache/cache.go): the critical sections of Get, drain and flush are
-- functions on the state; Cache.World is the step relation that interleaves requests, the ends
-- of builds, the listener and the clock.
--
-- Scan (labview/internal/scan): Interp is interp.go, the substitution of variables in a compose
-- file. EnvFile is envfile.go, the files of variables that a stack names.
--
-- Secrets (labview/internal/secrets/secrets.go): the mask, and the redaction of passwords in
-- URIs.
--
-- Payload (labview/internal/payload): the stacks and services that the packages below read and
-- write.
--
-- Fleet (labview/internal/fleet): Ingress is ingress.go, Networks is networks.go, Depends is
-- depends.go, Address is addr.go, Index is index.go, Origins is origins.go, Stats is stats.go
-- and Graph the edges of networks and dependencies in graph.go.
--
-- Declare (labview/internal/declare): compare.go and drift.go, what a sidecar file changes in
-- the verdicts on a service, and the notes that the walk adds. The counters of Fleet.Stats read
-- what it leaves.
--
-- Labels (labview/internal/labels): Labels is labels.go and dockflare.go, the tunnel routes
-- that labels declare, and Labels.Traefik is traefik.go, their routers, where strings.ToLower
-- is an argument and a slice behind the end of a rule, which panics, is a result.
--
-- Changes (labview/internal/changes/changes.go): what moved between two scans. Changes is the
-- diff of the configuration, whose digests leave out what Fleet and Declare conclude, and Moved
-- is the other half, with the note.
--
-- The cache answers those whom the gate lets through; the fleet's rules read what the scan
-- produced.
--
-- Bounds: the throttle holds 4096 names and the revocation set 10000 identifiers, as in the
-- source; the revocation set takes its cap as an argument, so that small caps can be run. Times
-- are natural numbers of nanoseconds, the seconds of a claim are integers, and no addition of
-- them is near the end of Go's range. Every loop is structural recursion, on a list or on the
-- nesting depth that the source allows, but for the one in Secrets, which runs on fuel: the
-- length of the text, of which every round takes at least three bytes.
--
-- Not modelled: reading files, sockets and the Docker engine; bcrypt, URL parsing, path
-- unescaping and the parsing of IP addresses, which are arguments; the provider sign-in
-- (oidc.go, jwt.go); the YAML readers of scan; the nodes and the other edges of the graph
-- (graph.go); what labels say of a gate (posture.go, hints.go, registry.go), the probe and the
-- two API clients; the HTTP API and the user interface. Sentences for a reader, notes among
-- them, are what they are about; the notes of fleet are left out. Mutexes make each method one
-- step, and no data race is modelled.

pub mod Common
pub mod Access
pub mod Scan
pub mod Fleet
pub mod Secrets
pub mod Cache
pub mod Payload
pub mod Declare
pub mod Changes
pub mod Labels
