-- ===== src/Lib.antt =====
-- aero-bot: the deterministic core of a bot that farms Aerodrome LP emissions on Base.
--
-- The program observes one pool at a time and asks the policy engine (src/aero_bot/policy.py) what to
-- do: hold, enter, recenter, exit, or sell held stock. `PolicyEngine.decide` is a pure function of
-- the state of the decision before and of one observation, and returns a decision with the state to
-- thread into the next. It calls the range-width solver (src/aero_bot/ranging.py), which says where a
-- range may be minted. Reads of the chain, transactions, mail and storage surround this core.
--
-- Files, and the code that they model:
--   Prelude, Prelude/*    shared names, integers over the native numbers, Python's exceptions as a
--                         result type with `Ensures` (what a normal return satisfies) and `Returns`
--                         (a normal return that satisfies it)
--   Decimal, Decimal/*    Python's decimal.Decimal at a precision: rounding half to even, comparison,
--                         arithmetic, square root, quantize, and their order laws
--   Ranging, Ranging/*    src/aero_bot/ranging.py: its records and the price point of
--                         src/aero_bot/history.py (Types), the formulas (Math, Implied, Volatility),
--                         the executable grid (Grid), the scoring of a pair of bounds (Score), the
--                         evidence checks (Evidence), the solve (Solve, Choice), the fixed-ceiling
--                         baseline (Ceiling), and what the solve answers (Found, Scored, Verdict); the
--                         engine takes the solver as an interface, `RangeSolver`
--   Policy/Parameters     PolicyParameters, its validator, LOCKED_POLICY_PARAMETERS
--   Policy/Types          the enumerations and records of policy.py
--   Policy/Day            the engine's inputs, _latch_equity_of and observe_day
--   Policy/Gas            the gas gate, batch costs and the downside recenter economics
--   Policy/Swap           position_composition, _stock_quantity, _swap_plan
--   Policy/Exits          _hold, _safety_exit, _out_of_range_grace_exit, _dislocation_outcome
--   Policy/Width          _solve_range_width and _range_for_solution
--   Policy/Flat           _decide_flat, the entry gates
--   Policy/Maintain       the maintenance branches of _decide_with_position
--   Policy/Engine         _decide_with_position, _decide_holding_inventory, decide
--   Policy/EntryRange, Policy/RangeAnswers  the engine with the solver of ranging.py
--   Policy/Trace          entry_gate_trace, and what its first failure says of decide
--   Policy/Posture, Policy/Entry, Policy/Halt, Policy/Session, Policy/Deadlines, Policy/Stops,
--   Policy/Tranches       what the engine's decisions guarantee
--   Policy/Examples, Policy/Tests, Policy/Runs, Policy/RangeRuns
--                         concrete books, and runs on them
--   Risk, Risk/*          the records of src/aero_bot/domain.py, RiskEngine.evaluate of
--                         src/aero_bot/risk.py, and what its verdict says
--   Digest, Digest/*      claim_send_admission and record_send_outcome of
--                         src/aero_bot/digest_admission.py on the contents of the marker file, and
--                         the window over sequences of claims and settlements; the exclusive lock
--                         makes operations a sequence
--   Abi, Abi/*            the calldata builders and view decoders of src/aero_bot/lp_calldata.py, the
--                         checks of its models, and bytes and hexadecimal text; what is built reads
--                         back
--   Oracle, Oracle/*      the ordered gates of ChainlinkHealthEvaluator in src/aero_bot/oracles.py,
--                         and the coverage report with its validator
--   History, History/*    _first_block_at_or_after of src/aero_bot/history.py, on a parameter that
--                         reads a block's header
--   Selector, Selector/*  evaluate_pool_entries, select_best_entry, closest_call_evaluation,
--                         switch_gas_economics and evaluate_switch of src/aero_bot/selector.py
--   Audit, Audit/*        append and verification of src/aero_bot/audit.py on the rows of its table,
--                         with the event types, the secret policy and the hashed dictionary; json,
--                         hashlib and the spelling of times are parameters (`Stdlib`)
--
-- State is threaded explicitly, as the source does with `model_copy`. A raise is a value of `Error`;
-- a validator of a constructed model that can fail is written out where the code constructs it.
-- Times are numbers of microseconds, and the New York date of an instant is a parameter of the
-- engine, as the time-zone database decides it. Two loops of the decimals run on fuel: the count of
-- digits, on the number itself, which a division by ten makes smaller, and Newton's square root, on
-- its start above the root, from which every round falls (Decimal/Fuel). The block search runs on
-- the source's own bound of 128 probes, which is enough for every head below 2 ^ 128.
--
-- Not modelled: diagnostic text, which no code reads back; the event calendar, which takes no part in
-- a decision; the power and the logarithm of decimals, which are parameters (`DecimalMath`); the
-- overflow of a time before the year 1 or after 9999; and everything that reads the chain, signs,
-- sends, mails or stores.
pub mod Prelude
pub mod Decimal
pub mod Ranging
pub mod Policy
pub mod Risk
pub mod Digest
pub mod Audit
pub mod Abi
pub mod Oracle
pub mod History
pub mod Selector
