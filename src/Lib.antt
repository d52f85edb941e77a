-- ===== src/Lib.antt =====
-- Advanced wallets: verification of the wallet manager and of the master application.
--
-- The program is two servers. The advanced wallet manager (src/advancedWalletManager) holds the keys
-- of a wallet through a key provider, an HTTP service: it makes keys, signs transactions and signs
-- recoveries, either with a private key that it fetches and hands to the BitGo SDK, or by letting
-- the key provider sign (external signing). The master application (src/masterBitgoExpress) talks to
-- BitGo and to the wallet managers. In async mode it submits a job to a bridge where it would call a
-- wallet manager (but for a recovery with two managers), and a worker completes the jobs that the
-- managers have answered. Both share src/shared.
--
-- Files and the code that they model:
--   Base, Js          numbers, texts and lists; the values of JavaScript that are passed on. Js.Json
--                     and Js.Parse are JSON.stringify and JSON.parse (Sizes and Fuel are about its
--                     fuel), Js.Texts is about letters and parts of texts
--   Exec              handlers (async functions) and what they call; laws of handlers below it:
--                     Only is about single calls, History about calls and those before them
--   Shared.Types      src/shared/types/index.ts
--   Shared.Errors     src/shared/errors.ts
--   Shared.Response   src/shared/responseHandler.ts
--   Shared.HttpClient src/shared/httpClient.ts
--   Shared.CoinUtils, Shared.CoinFactory, Shared.RecoveryUtils
--                     src/shared/coinUtils.ts, coinFactory.ts, recoveryUtils.ts
--   Shared.AppUtils, Shared.Middleware, Shared.TransactionUtils
--                     src/shared/appUtils.ts, middleware.ts, transactionUtils.ts
--   Config            src/initConfig.ts: Environment, Protocol, Awm and Master hold its parts,
--                     Accepted is about what is accepted
--   Awm.KeyProvider   src/advancedWalletManager/keyProviderClient
--   Awm.Utils         src/advancedWalletManager/handlers/utils/utils.ts
--   Awm.MultisigSign  src/advancedWalletManager/handlers/multisigSignTransaction.ts
--   Awm.IndependentKey
--                     src/advancedWalletManager/handlers/postIndependentKey.ts
--   Awm.Recovery      src/advancedWalletManager/handlers/multisigRecovery.ts: Request, Evm, Utxo and
--                     External hold its parts; Separation, Split and Failures are about it
--   Awm.Mpc           src/advancedWalletManager/handlers: Mpc.KeyGen is
--                     ecdsaMPCV2WalletGenerationInitialize.ts, -Round.ts and -Finalize.ts
--                     (Rounds and NextState are about a round, Stored about the end);
--                     Mpc.EddsaKeyGen is eddsaMPCWalletGenerationInitialize.ts and -Finalize.ts; Mpc.Sign
--                     is ecdsaEddsaSignTransaction.ts; Mpc.Recovery is ecdsaMPCV2Recovery.ts and
--                     eddsaMPCRecovery.ts
--   Mbe.Bridge        src/masterBitgoExpress/clients/bridgeClient.ts and bridgeClient.types.ts
--   Mbe.Submit        src/masterBitgoExpress/handlers/utils: asyncUtils.ts, multisigSignUtils.ts,
--                     multisigSubmitUtils.ts, multisigRecoveryUtils.ts
--   Mbe.Worker        src/masterBitgoExpress/workers/asyncJobWorker.ts: the job handlers; Ticks is
--                     the timer; Reports, Rounds and Keygen are about them
--   Mbe.AwmClient     src/masterBitgoExpress/clients/advancedWalletManagerClient.ts: Mpc holds the calls
--                     for MPC wallets, Methods is about all calls
--   Mbe.Middleware    src/masterBitgoExpress/middleware/middleware.ts
--   Mbe.Wallets       src/masterBitgoExpress/handlers/utils/utils.ts
--   Mbe.SendMany      src/masterBitgoExpress/handlers/handleSendMany.ts
--   Mbe.Unspents      src/masterBitgoExpress/handlers/handleAccelerate.ts and
--                     handleConsolidateUnspents.ts
--   Mbe.Consolidate   src/masterBitgoExpress/handlers/handleConsolidate.ts: the loop; Handler is the rest,
--                     Outcome is about the outcome
--   Mbe.Generate      src/masterBitgoExpress/handlers/handleGenerateWallet.ts, and the callback for
--                     multisig keys of walletGenerationCallbacks.ts
--   Mbe.Callbacks     the callbacks for MPC keys of walletGenerationCallbacks.ts; Order is
--                     about their order, Routing about which manager they call,
--                     Finalization about the end
--   Mbe.MpcSign       src/masterBitgoExpress/handlers: ecdsa.ts, eddsa.ts, transactionRequests.ts and
--                     handleSignAndSendTxRequest.ts; Rounds is about the rounds
--   Mbe.Recovery      src/masterBitgoExpress/handlers/recoveryWallet.ts: Request, Tss and Multisig hold
--                     its parts; Ecdsa, Eddsa and Consolidations are recoveryEcdsa.ts, recoveryEddsa.ts
--                     and handleRecoveryConsolidations.ts; HalfSigned and Split are about two
--                     wallet managers
--   Mbe.Poll          src/masterBitgoExpress/handlers/handleGetJob.ts
--   Tests             the theorems at concrete inputs
--
-- A definition has the name of the function that it models, in lower case with underscores. A
-- handler is a value of `Exec`: it has returned or thrown, or it awaits the answer to a call, and
-- goes on from any answer. A call is an HTTP request or a method of the SDK. `run` gives a handler
-- the answers of a `World`, which may depend on all earlier calls, and yields the outcome and the
-- calls, newest first. `feed` gives a handler a list of answers; `interleave` runs several handlers
-- side by side under any schedule. What is thrown is a class and the properties of the object.
--
-- Parameters (fields of `World`): the answers to calls, the coins of the SDK, the message of a Zod
-- error, the protocol of a URL, `_.pick`, and two names of the SDK. The environment (`Env`) is the
-- variables, `Number` on a text, and the files. Numbers are the non-negative integers, which
-- statuses, versions, ports and rounds are; the texts of numbers are made with a fuel of one more
-- than the number, more than its digits. JSON.parse runs on a fuel of three for each character and
-- three more: at most three calls of its parts stand between two characters. Of JSON it reads
-- what JSON.stringify writes for such values, and white space; negative numbers, fractions and
-- \u escapes are refused. Letters are those of ASCII. A typed array and the object that JSON makes
-- of it are one value. Two handlers under Promise.all (`both`) run side by side. No handler needs
-- fuel: their loops go through a list.
--
-- Not modelled: logging, stack traces, request tracers, the codecs of the API specifications (a
-- handler starts from the decoded request), the loading of SDK modules, cryptography, the start of
-- the servers and their routes, and the formats of error messages (src/shared/errorFormatters.ts).
-- What the SDK is given to call back is passed to it as what the function closes over.
pub mod Base
pub mod Js
pub mod Exec
pub mod Shared
pub mod Config
pub mod Awm
pub mod Mbe
pub mod Tests
