-- ===== src/Lib.antt =====
-- The AutoNAT testbed: its runner, its trace analysis and its assertions.
--
-- The testbed starts libp2p nodes behind a router with docker compose, waits until the client has
-- settled on its reachability, and exports the client's OpenTelemetry spans as a JSONL trace. The
-- runner (testbed/run.py) expands a scenario file into scenarios, validates them, picks the compose
-- profiles, the containers and the environment of each, and names the result file of each run. The
-- evaluator (testbed/eval-assertions.py) checks a scenario's assertions against the events of the
-- trace. The analysis (testbed/analyze.py) reads traces and computes the metrics, and
-- results/generate_figures.py draws its figures from traces. The runner runs the evaluator as a
-- program, with the assertions on its standard input; the others interact only through the trace
-- files and the scenario files. results/nebula-analysis/plot.py draws charts of a crawl of the
-- network from CSV files, and interacts with none of them.
--
-- Base        shared names, Python's integers (ℤ), texts (strip, isdigit, int, str), dicts, and
--             sorting by a key
-- Json        what json.loads gives, `_coerce_int`, and the record Python of what is taken as given
-- Trace       parse_trace of testbed/analyze.py: Trace/Attrs one span, Trace/Parse the loop and the
--             merge, Trace/Views the description by span names
-- Metrics     testbed/analyze.py: Rates is compute_fnr and compute_fpr, Stats the inner function
--             stats, Confidence compute_time_to_confidence, Update compute_time_to_update, Overhead
--             _probe_byte_estimate and Overhead/Total compute_protocol_overhead, Request the
--             choice of metrics and the loading of files in main, Options the options of main,
--             Report format_text and the end of main
-- Assertions  testbed/eval-assertions.py: Load is load_events, Evaluate matches and evaluate,
--             Program main, Attributes flatten_attributes
-- Scenario    testbed/run.py: Defs the dataclasses and constants, Expand expand_matrix, Validate
--             validate, Profiles get_profiles, get_client_container and get_obs_thresh with the
--             services of testbed/docker/compose.yml, Environment build_env, Label build_run_label,
--             Filter apply_filter, Schema parse_scenario and Schema/Document expand_scenarios
-- Runner      testbed/run.py: Waits is wait_for_convergence, wait_for_new_span and the wait in
--             run_toggles, Toggles is run_toggles, Jaeger export_trace_jsonl, count_spans and
--             has_convergence_span, Jaeger/Find find_spans, Compose the class Compose and the
--             script of exec_toggle, Ready wait_ready, wait_for_healthy and the observation, Evaluation
--             run_assertions with the evaluator's program, Run run_scenario, Main main; Effects
--             is what they do to the world; Query is the URL of find_spans, DryRun dry_run, Reading
--             load_yaml and _parse_list_attr
-- Agreement   where programs share a file: the trace of testbed/run.py in testbed/analyze.py, in
--             testbed/eval-assertions.py and in results/generate_figures.py, and its toggle results
--             in results/generate_figures.py
-- Figures     results/generate_figures.py: the helpers up to first_convergence_ms, Names
--             parse_scenario_name, Rates _compute_fnr_fpr and _compute_fnr_fpr_gap,
--             Overhead _probe_byte_estimate and the data of the overhead figure, Detection the
--             matrix of the detection figure, Timeline the events of the toggles' figure,
--             Conditions the data of the convergence figures, Impact the lines of the latency and the
--             packet-loss figure, Gap the timelines of the gap figure, Bars the bars of the figures
--             on convergence, rates and overhead, Palette the constants and what is drawn by them,
--             Program main
-- Nebula      results/nebula-analysis/plot.py: Clients, Protocols, Versions (chart_server_mode and
--             chart_oscillation_refined), Dialable and Grid are its charts, Charts the main part
-- Tests       runs on concrete inputs
--
-- State. The source's local variables are carried by records: Loading for the lists that
-- parse_trace fills, Times and Outcomes for compute_time_to_confidence, Update for
-- compute_time_to_update. Each `for` loop is a recursion on its list with the body as a function of
-- its own. The polling loops run on fuel, one unit for each round. A round sleeps three seconds in
-- the waits for spans, so that a third of the timeout and one more is enough; it sleeps one second
-- in wait_ready, two in wait_for_healthy, and a minute or up to the end in the observation. A
-- function that may raise returns an Option whose `none` is the exception; a line that does not
-- decode, which the source skips, is a value.
--
-- The world. What a polling loop sees is given by functions of the round's number: the whole
-- seconds on its clock, and Jaeger's answers. run_toggles returns its sleeps and the actions on the
-- router as a list of effects, with its results or, when a script fails on the router, none. run_scenario and main run in the monad of Runner/Effects, whose
-- state is the files and the log of the effects so far, and whose results are a value, an
-- exception, or a loop that ran out of fuel. What a run sees of docker and of Jaeger is the record
-- Seen, one for each run, found by the number of runs before it. The containers are a state machine
-- over the log: absent, or running with some profiles.
--
-- Taken as given. json.loads, json.dumps, int of a float, str and == of values, and the mean and
-- the median of the statistics library are the fields of the record Python of Json; the comparison of a probability with 0.0 and 1.0, and str of an
-- integer and of an attribute of a scenario, and json.dumps with an indent, are parameters where
-- they are used. A float is carried as its repr. The texts of the report's numbers, which may be
-- floats, are the record Numbers of Metrics/Report, the percentages of the protocols' chart are a
-- parameter, and the charts' floats the record Floats of
-- Nebula/Versions. A row of a CSV file is the dict that csv.DictReader gives.
--
-- Numbers. Python's integers are unbounded, and so is ℤ. The library's mean and median divide
-- floats, and raise an OverflowError for integers that are too large for one, which the functions
-- that use them pass on. Metrics/Stats/Exact computes the two exactly, rounded half to even as
-- round does; that is what the library gives for up to 2^20 integers of 31 bits, since a float's 53
-- bits then tell the quotient from a half. int(n * 0.95) is taken as 95 * n / 100, which the
-- floating-point product agrees with for every n below 2,000,000.
--
-- Not modelled. Characters outside ASCII in int, isdigit and strip; int of an infinite float, which
-- raises OverflowError; an attribute key that is not a text, or a value in Jaeger's answer that is
-- no dict where one is expected, which is taken as an exception; the order in which exceptions of
-- one span would arise, since all of them end the function. Of testbed/analyze.py: the
-- warnings on standard error, and how json.dump prints. Of testbed/run.py: how docker, Jaeger and
-- a YAML reader answer, the time stamps, and the prints but for the dry run's table; a value of a
-- scenario of another kind than its field's, which is taken as an exception. Of
-- results/generate_figures.py: the drawing, with the division of milliseconds by 1000. Of
-- results/nebula-analysis/plot.py: the drawing and the reading of CSV. The nodes in Go, Rust and
-- JavaScript, and the shell scripts.
pub mod Base
pub mod Json
pub mod Trace
pub mod Metrics
pub mod Assertions
pub mod Scenario
pub mod Agreement
pub mod Runner
pub mod Figures
pub mod Nebula
pub mod Tests
